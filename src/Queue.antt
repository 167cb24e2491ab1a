-- ===== src/Queue.antt =====
-- queueing.py: `InMemoryJobQueue` over the standard library's `queue.Queue`, which counts the
-- unfinished tasks. A receipt is the identity of an object: the number of the objects made before.
pub mod Azure
pub mod Delivery
use azure_ml_optimization_pl.Base.{
  ℕ, ◌+◌, ◌-◌, Bool, Option, none, some, List, [], ◌∷◌, ◌++◌, ◌==◌, if◌then◌else◌,
}
use azure_ml_optimization_pl.Errors.{Result, ok, other, check, ◌>>=◌}
use azure_ml_optimization_pl.Domain.{JobMessage}
use azure_ml_optimization_pl.Protocol.Record.{is_some}

pub record ReceivedJob : Type 0 where
  pub message : JobMessage
  pub receipt : Option ℕ
  pub dequeue_count : ℕ

pub record JobQueue : Type 0 where
  pub waiting : List ReceivedJob
  pub unfinished : ℕ
  pub objects : ℕ

abbrev pub empty : JobQueue
empty = record { waiting = []; unfinished = 0; objects = 0 }

-- `put` and `task_done` of `queue.Queue`.
unfoldable pub put : ReceivedJob → JobQueue → JobQueue
put job q = record q { waiting = q.waiting ++ job ∷ []; unfinished = q.unfinished + 1 }

unfoldable pub task_done : JobQueue → Result JobQueue
task_done q =
    check (q.unfinished == 0) (other "task_done() called too many times")
      (ok (record q { unfinished = q.unfinished - 1 }))

unfoldable pub enqueue : JobMessage → JobQueue → JobQueue
enqueue message q = put (record { message = message; receipt = none; dequeue_count = 1 }) q

-- The job as `receive` marks it, with a new object for its receipt.
unfoldable pub mark_received : ReceivedJob → (object : ℕ) → ReceivedJob
mark_received job object = record job {
  dequeue_count = if is_some job.receipt then job.dequeue_count + 1 else job.dequeue_count;
  receipt = some object;
}

-- `queue.Empty`, behind the wait, is `none`.
abbrev pub received : JobQueue → List ReceivedJob → Option ReceivedJob × JobQueue
received q [] = (none, q)
received q (job ∷ rest) =
    (some (mark_received job q.objects), record q { waiting = rest; objects = q.objects + 1 })

unfoldable pub receive : JobQueue → Option ReceivedJob × JobQueue
receive q = received q q.waiting

unfoldable pub acknowledge : ReceivedJob → JobQueue → Result JobQueue
acknowledge job q = task_done q

unfoldable pub abandon : ReceivedJob → JobQueue → Result JobQueue
abandon job q = do q' ← task_done q; ok (put job q')

abbrev pub renew : ReceivedJob → (visibility_timeout : ℕ) → ReceivedJob
renew job visibility_timeout = job
