-- ===== src/Queue/Delivery.antt =====
-- The in-memory queue of queueing.py under sequences of deliveries, with what becomes of the
-- messages.
use azure_ml_optimization_pl.Base.{
  ℕ, zero, suc, ◌+◌, ◌≡◌, refl, ap, Bool, Option, none, some, Option-cases, inl, inr, List, [], ◌∷◌,
  ◌++◌, length, length-append, arith, if◌then◌else◌, ◌≤◌, ◌-◌,
}
use azure_ml_optimization_pl.Errors.{Result, ok, err, ◌>>=◌}
use azure_ml_optimization_pl.Domain.{JobMessage}
use azure_ml_optimization_pl.Queue.{
  ReceivedJob, JobQueue, put, task_done, enqueue, mark_received, receive, acknowledge, abandon,
  received,
}

-- The queue, the jobs that workers hold, and the messages submitted and acknowledged so far.
pub record Delivery : Type 0 where
  pub queue : JobQueue
  pub held : List ReceivedJob
  pub submitted : List JobMessage
  pub acknowledged : List JobMessage

pub data Op : Type 0 where
  submits : JobMessage → Op
  takes : Op
  -- The worker that holds the job at an index acknowledges or abandons it.
  settles gives_back : (index : ℕ) → Op

-- The element at an index, and the others.
unfoldable pub take_at : ℕ → List ReceivedJob → Option (ReceivedJob × List ReceivedJob)
take_at i [] = none
take_at zero (x ∷ xs) = some (x, xs)
take_at (suc i) (x ∷ xs) = elim (take_at i xs) [ none ↦ none | some (y, ys) ↦ some (y, x ∷ ys) ]

abbrev taken : Delivery → Option ReceivedJob × JobQueue → Delivery
taken v (none, q) = record v { queue = q }
taken v (some job, q) = record v { queue = q; held = job ∷ v.held }

abbrev settled : Delivery → Option (ReceivedJob × List ReceivedJob) → Result Delivery
settled v none = ok v
settled v (some (job, others)) = acknowledge job v.queue >>= λ q.
    ok (record v { queue = q; held = others; acknowledged = job.message ∷ v.acknowledged })

abbrev given_back : Delivery → Option (ReceivedJob × List ReceivedJob) → Result Delivery
given_back v none = ok v
given_back v (some (job, others)) =
    abandon job v.queue >>= λ q. ok (record v { queue = q; held = others })

unfoldable pub step : Op → Delivery → Result Delivery
step (submits m) v = ok (record v { queue = enqueue m v.queue; submitted = m ∷ v.submitted })
step takes v = ok (taken v (receive v.queue))
step (settles i) v = settled v (take_at i v.held)
step (gives_back i) v = given_back v (take_at i v.held)

unfoldable pub steps : List Op → Delivery → Result Delivery
steps [] v = ok v
steps (o ∷ os) v = step o v >>= steps os

-- How many messages satisfy a test.
abbrev pub number_of : (JobMessage → Bool) → List JobMessage → ℕ
number_of p [] = 0
number_of p (m ∷ ms) = (if p m then 1 else 0) + number_of p ms

abbrev pub number_in : (JobMessage → Bool) → List ReceivedJob → ℕ
number_in p [] = 0
number_in p (j ∷ js) = (if p j.message then 1 else 0) + number_in p js

number_in-append :
    (p : JobMessage → Bool) (xs ys : List ReceivedJob)
    → number_in p (xs ++ ys) ≡ number_in p xs + number_in p ys
number_in-append p [] ys = omega arith
number_in-append p (x ∷ xs) ys = omega (arith, number_in-append p xs ys)

-- No message is lost or made up, and the queue's count of unfinished tasks is right.
pub record IsBalanced (v : Delivery) : Type 0 where
  pub conserved :
      (p : JobMessage → Bool)
      → number_of p v.submitted
        ≡ number_in p v.queue.waiting + number_in p v.held + number_of p v.acknowledged
  pub counted : v.queue.unfinished ≡ length v.queue.waiting + length v.held

abbrev pub IsBalancedAfter : Result Delivery → Type 0
IsBalancedAfter (ok v) = IsBalanced v
IsBalancedAfter (err e) = ⊥

take_at-length :
    (i : ℕ) (xs : List ReceivedJob) (x : ReceivedJob) (ys : List ReceivedJob)
    → take_at i xs ≡ some (x, ys)
    → length xs ≡ length ys + 1
unfolding take_at
take_at-length i [] x ys h = cc
take_at-length zero (z ∷ zs) x ys h = ground arith
take_at-length (suc i) (z ∷ zs) x ys h = elim (Option-cases (take_at i zs)) [
  | inl e ↦ cc (rw e at h)
  | inr ((y, rest), e) ↦ ground (arith, take_at-length i zs y rest e, rw e at h)
]

take_at-number :
    (p : JobMessage → Bool) (i : ℕ) (xs : List ReceivedJob) (x : ReceivedJob)
    (ys : List ReceivedJob)
    → take_at i xs ≡ some (x, ys)
    → number_in p xs ≡ (if p x.message then 1 else 0) + number_in p ys
unfolding take_at
take_at-number p i [] x ys h = cc
take_at-number p zero (z ∷ zs) x ys h = ground arith
take_at-number p (suc i) (z ∷ zs) x ys h = elim (Option-cases (take_at i zs)) [
  | inl e ↦ cc (rw e at h)
  | inr ((y, rest), e) ↦ ground (arith, take_at-number p i zs y rest e, rw e at h)
]

abbrev fresh_job : JobMessage → ReceivedJob
fresh_job m = record { message = m; receipt = none; dequeue_count = 1 }

submits-IsBalanced :
    (m : JobMessage) (v : Delivery) → IsBalanced v → IsBalancedAfter (step (submits m) v)
unfolding step enqueue put
submits-IsBalanced m v h = record {
  conserved =
      λ p. omega (arith, h.conserved p, number_in-append p v.queue.waiting (fresh_job m ∷ []));
  counted = omega (arith, h.counted, length-append v.queue.waiting (fresh_job m ∷ []));
}

takes-IsBalanced :
    (v : Delivery) (waiting : List ReceivedJob)
    → v.queue.waiting ≡ waiting
    → IsBalanced v
    → IsBalanced (taken v (received v.queue waiting))
unfolding mark_received
takes-IsBalanced v [] e h = h
takes-IsBalanced v (job ∷ rest) e h = record {
  conserved = λ p. omega (arith, h.conserved p, ap (number_in p) e);
  counted = omega (arith, h.counted, ap length e);
}

task_done-ok :
    (q : JobQueue)
    → 1 ≤ q.unfinished
    → task_done q ≡ ok (record q { unfinished = q.unfinished - 1 })
unfolding task_done
task_done-ok q h = ground arith

settled-IsBalanced :
    (v : Delivery) (i : ℕ) (found : Option (ReceivedJob × List ReceivedJob))
    → take_at i v.held ≡ found
    → IsBalanced v
    → IsBalancedAfter (settled v found)
unfolding acknowledge
settled-IsBalanced v i none e h = h
settled-IsBalanced v i (some (job, others)) e h =
    let fewer = take_at-length i v.held job others e in
    rw (task_done-ok v.queue (omega (arith, h.counted, fewer))) (record {
      conserved = λ p. omega (arith, h.conserved p, take_at-number p i v.held job others e);
      counted = omega (arith, h.counted, fewer);
    })

given_back-IsBalanced :
    (v : Delivery) (i : ℕ) (found : Option (ReceivedJob × List ReceivedJob))
    → take_at i v.held ≡ found
    → IsBalanced v
    → IsBalancedAfter (given_back v found)
unfolding abandon put
given_back-IsBalanced v i none e h = h
given_back-IsBalanced v i (some (job, others)) e h =
    let fewer = take_at-length i v.held job others e in
    rw (task_done-ok v.queue (omega (arith, h.counted, fewer))) (record {
      conserved = λ p. omega (
        arith,
        h.conserved p,
        take_at-number p i v.held job others e,
        number_in-append p v.queue.waiting (job ∷ []),
      );
      counted = omega (arith, h.counted, fewer, length-append v.queue.waiting (job ∷ []));
    })

step-IsBalanced : (o : Op) (v : Delivery) → IsBalanced v → IsBalancedAfter (step o v)
step-IsBalanced (submits m) v h = submits-IsBalanced m v h
step-IsBalanced takes v h = unfold step receive in takes-IsBalanced v v.queue.waiting refl h
step-IsBalanced (settles i) v h = unfold step in settled-IsBalanced v i (take_at i v.held) refl h
step-IsBalanced (gives_back i) v h =
    unfold step in given_back-IsBalanced v i (take_at i v.held) refl h

bind-IsBalanced :
    (r : Result Delivery) (f : Delivery → Result Delivery)
    → IsBalancedAfter r
    → ((v : Delivery) → IsBalanced v → IsBalancedAfter (f v))
    → IsBalancedAfter (r >>= f)
bind-IsBalanced (ok v) f h k = k v h
bind-IsBalanced (err e) f h k = h

-- From a balanced state, every sequence of submissions, deliveries, acknowledgements and returns
-- of held jobs runs without an exception and ends in a balanced state: no message is lost or made
-- up, each is waiting, held or acknowledged, and the count of unfinished tasks is right.
pub steps-IsBalanced : (os : List Op) (v : Delivery) → IsBalanced v → IsBalancedAfter (steps os v)
unfolding steps
steps-IsBalanced [] v h = h
steps-IsBalanced (o ∷ os) v h =
    bind-IsBalanced (step o v) (steps os) (step-IsBalanced o v h) (steps-IsBalanced os)
