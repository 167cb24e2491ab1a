-- ===== src/Examples/Queues.antt =====
-- The Azure queue over a storage queue of one message, whose pop receipts are numbers.
use azure_ml_optimization_pl.Base.{
  ℕ, ◌+◌, String, ◌≡◌, ◌≢◌, refl, Option, none, some, List, [], ◌∷◌, ◌==◌, arith, if◌then◌else◌,
  false,
}
use azure_ml_optimization_pl.Errors.{Error, Result, ok, err, other}
use azure_ml_optimization_pl.Exec.{pure, ◌>>=◌}
use azure_ml_optimization_pl.Queue.Azure.{
  Item, Client, Messages, Job, receive, renew, acknowledge, job_of,
}
use azure_ml_optimization_pl.Queue.Azure.Receipts.{Holds, renew_each, receive-acknowledge}

abbrev Slot : Type 0
Slot = Option (String × ℕ)

abbrev slot_current : Unit {0} → Slot → Option ℕ
slot_current id none = none
slot_current id (some (content, p)) = some p

abbrev slot_receive : ℕ → Slot → Result (List (Item (Unit {0}) ℕ)) × Slot
slot_receive v none = (ok [], none)
slot_receive v (some (content, p)) = (
  ok (record { id = tt; pop_receipt = p + 1; content = content; dequeue_count = some 1 } ∷ []),
  some (content, p + 1),
)

abbrev refusal : Error
refusal = other "the pop receipt does not match"

abbrev slot_delete : Unit {0} → ℕ → Slot → Result (Unit {0}) × Slot
slot_delete id p none = (err refusal, none)
slot_delete id p (some (content, q)) =
    if p == q then (ok tt, none) else (err refusal, some (content, q))

abbrev slot_update : Unit {0} → ℕ → ℕ → Slot → Result ℕ × Slot
slot_update id p v none = (err refusal, none)
slot_update id p v (some (content, q)) =
    if p == q then (ok (q + 1), some (content, q + 1)) else (err refusal, some (content, q))

slot_received_current :
    (v : ℕ) (s t : Slot) (x : Item (Unit {0}) ℕ) (xs : List (Item (Unit {0}) ℕ))
    → slot_receive v s ≡ (ok (x ∷ xs), t)
    → slot_current x.id t ≡ some x.pop_receipt
slot_received_current v none t x xs h = cc
slot_received_current v (some (content, p)) t x xs h = ground (arith, h)

slot_updated_current :
    (id : Unit {0}) (p q v : ℕ) (s t : Slot)
    → slot_update id p v s ≡ (ok q, t)
    → slot_current id t ≡ some q
slot_updated_current id p q v none t h = cc
slot_updated_current id p q v (some (content, r)) t h = ground (arith, h)

slot_deleted_current :
    (id : Unit {0}) (p : ℕ) (s t : Slot)
    → slot_delete id p s ≡ (ok tt, t)
    → slot_current id t ≡ none
slot_deleted_current id p none t h = cc
slot_deleted_current id p (some (content, r)) t h = ground (arith, h)

slot_update_stale :
    (id : Unit {0}) (p v : ℕ) (s : Slot)
    → slot_current id s ≢ some p
    → (e : Error) × (slot_update id p v s ≡ (err e, s))
slot_update_stale id p v none h = (refusal, refl)
slot_update_stale id p v (some (content, q)) h = (refusal, ground (arith, h))

slot_delete_stale :
    (id : Unit {0}) (p : ℕ) (s : Slot)
    → slot_current id s ≢ some p
    → (e : Error) × (slot_delete id p s ≡ (err e, s))
slot_delete_stale id p none h = (refusal, refl)
slot_delete_stale id p (some (content, q)) h = (refusal, ground (arith, h))

abbrev slot : Client
slot = record {
  State = Slot;
  MessageId = Unit;
  Pop = ℕ;
  current = slot_current;
  create_queue = λ s. (ok tt, s);
  is_exists_error = λ e. false;
  get_queue_properties = λ s. (ok tt, s);
  send_message = λ content s. (ok tt, some (content, 0));
  receive_messages = slot_receive;
  delete_message = slot_delete;
  update_message = slot_update;
  received_current = slot_received_current;
  updated_current = slot_updated_current;
  deleted_current = slot_deleted_current;
  update_stale = slot_update_stale;
  delete_stale = slot_delete_stale;
}

-- A message is the name of its job.
abbrev job_names : Messages
job_names = record {
  encode = λ m. m.job_id;
  decode = λ s. ok (record { job_id = s; experiment_id = s; enqueued_at = 0 });
}

abbrev job_with : ℕ → Job slot
job_with p = record {
  message = record { job_id = "j1"; experiment_id = "j1"; enqueued_at = 0 };
  receipt = (tt, p);
  dequeue_count = 1;
}

first_received :
    receive slot job_names 120 (some ("j1", 4)) ≡ (ok (some (job_with 5)), some ("j1", 5))
unfolding receive job_of ◌>>=◌ pure
first_received = refl

renewed_twice :
    renew_each slot (120 ∷ 120 ∷ []) (job_with 5) (some ("j1", 5))
    ≡ (ok (job_with 7), some ("j1", 7))
unfolding renew_each renew ◌>>=◌ pure
renewed_twice = refl

receive-acknowledge_example :
    ((job_with 7).message ≡ (job_with 5).message)
    × (Holds slot (job_with 7) (some ("j1", 7)))
    × ((w : Slot)
        → acknowledge slot (job_with 7) (some ("j1", 7)) ≡ (ok tt, w)
        → slot_current tt w ≡ none)
receive-acknowledge_example =
    receive-acknowledge slot job_names 120 (120 ∷ 120 ∷ []) (job_with 5) (job_with 7)
      (some ("j1", 4)) (some ("j1", 5)) (some ("j1", 7)) first_received renewed_twice
