-- ===== src/Examples.antt =====
-- The theorems at concrete inputs. Floats are decimal fixed point numbers.
pub mod Data
pub mod Records
pub mod Blobs
pub mod Completions
pub mod Disks
pub mod Requests
pub mod Loops
pub mod Manifests
pub mod Operations
pub mod Plots
pub mod Processes
pub mod Queues
pub mod Runs
pub mod Smoke
pub mod Cluster
pub mod Stores
pub mod Listings
