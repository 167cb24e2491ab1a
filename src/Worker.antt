-- ===== src/Worker.antt =====
-- worker.py.
pub mod Changes
pub mod Completion
pub mod Process
pub mod Kept
pub mod Loop
pub mod Safety
pub mod Steady
