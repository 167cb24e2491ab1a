-- ===== src/Queue/Azure.antt =====
-- `AzureStorageJobQueue` of queueing.py over a storage queue, which is a parameter: its content at
-- a time, and the calls of the client. A receipt is the message's id with its pop receipt.
pub mod Receipts
use azure_ml_optimization_pl.Base.{
  Bool, ℕ, zero, suc, String, ◌≡◌, ◌≢◌, Option, none, some, List, [], ◌∷◌,
}
use azure_ml_optimization_pl.Errors.{Error, Result, ok, err}
use azure_ml_optimization_pl.Domain.{JobMessage}
use azure_ml_optimization_pl.Exec.{Exec, pure, suppress, ◌>>=◌, ◌>>◌}

-- A message that the client hands out.
pub record Item (MessageId Pop : Type 0) : Type 0 where
  pub id : MessageId
  pub pop_receipt : Pop
  pub content : String
  pub dequeue_count : Option ℕ

-- A storage queue. Documented of the service: a delivery and an update give the message a new pop
-- receipt, and return it; a deletion or an update with another receipt than the one that the
-- message has fails and does nothing; a message that was deleted has none.
pub record Client : Type 1 where
  pub State : Type 0
  pub MessageId : Type 0
  pub Pop : Type 0
  -- The pop receipt of a message, while it is in the queue.
  pub current : MessageId → State → Option Pop
  pub create_queue : Exec State (Unit {0})
  -- Whether an exception is a `ResourceExistsError`.
  pub is_exists_error : Error → Bool
  pub get_queue_properties : Exec State (Unit {0})
  pub send_message : String → Exec State (Unit {0})
  pub receive_messages : (visibility_timeout : ℕ) → Exec State (List (Item MessageId Pop))
  pub delete_message : MessageId → Pop → Exec State (Unit {0})
  pub update_message : MessageId → Pop → (visibility_timeout : ℕ) → Exec State Pop
  pub received_current :
      (v : ℕ) (s t : State) (x : Item MessageId Pop) (xs : List (Item MessageId Pop))
      → receive_messages v s ≡ (ok (x ∷ xs), t)
      → current x.id t ≡ some x.pop_receipt
  pub updated_current :
      (id : MessageId) (p q : Pop) (v : ℕ) (s t : State)
      → update_message id p v s ≡ (ok q, t)
      → current id t ≡ some q
  pub deleted_current :
      (id : MessageId) (p : Pop) (s t : State)
      → delete_message id p s ≡ (ok tt, t)
      → current id t ≡ none
  pub update_stale :
      (id : MessageId) (p : Pop) (v : ℕ) (s : State)
      → current id s ≢ some p
      → (e : Error) × (update_message id p v s ≡ (err e, s))
  pub delete_stale :
      (id : MessageId) (p : Pop) (s : State)
      → current id s ≢ some p
      → (e : Error) × (delete_message id p s ≡ (err e, s))

-- `model_dump_json`, and `json.loads` with `model_validate`.
pub record Messages : Type 0 where
  pub encode : JobMessage → String
  pub decode : String → Result JobMessage

-- `item.dequeue_count or 1`
abbrev pub or_one : Option ℕ → ℕ
or_one none = 1
or_one (some zero) = 1
or_one (some (suc n)) = suc n

pub record ReceivedJob (MessageId Pop : Type 0) : Type 0 where
  pub message : JobMessage
  pub receipt : MessageId × Pop
  pub dequeue_count : ℕ

module _ (client : Client) where
  open client use {
    State, MessageId, Pop, create_queue, is_exists_error, get_queue_properties, send_message,
    receive_messages, delete_message, update_message,
  }

  abbrev pub Job : Type 0
  Job = ReceivedJob MessageId Pop

  abbrev lift : {A : Type 0} → Result A → Exec State A
  lift r s = (r, s)

  module _ (json : Messages) where
    unfoldable pub enqueue : JobMessage → Exec State (Unit {0})
    enqueue message = send_message (json.encode message)

    unfoldable pub job_of : List (Item MessageId Pop) → Exec State (Option Job)
    job_of [] = pure none
    job_of (item ∷ items) = do
      message ← lift (json.decode item.content)
      pure (
          some (record {
            message = message;
            receipt = (item.id, item.pop_receipt);
            dequeue_count = or_one item.dequeue_count;
          }))

    -- `visibility_timeout` is the field of the queue.
    unfoldable pub receive : (visibility_timeout : ℕ) → Exec State (Option Job)
    unfolding job_of
    receive visibility_timeout = do items ← receive_messages visibility_timeout; job_of items

  unfoldable pub acknowledge : Job → Exec State (Unit {0})
  acknowledge job = delete_message job.receipt.0 job.receipt.1

  unfoldable pub abandon : Job → Exec State (Unit {0})
  abandon job = do update_message job.receipt.0 job.receipt.1 0; pure tt

  -- The job has the new receipt behind it.
  unfoldable pub renew : Job → (visibility_timeout : ℕ) → Exec State Job
  renew job visibility_timeout = do
    updated ← update_message job.receipt.0 job.receipt.1 visibility_timeout
    pure (record job { receipt = (job.receipt.0, updated) })

  unfoldable pub init : Exec State (Unit {0})
  init = suppress is_exists_error create_queue

  unfoldable pub health : Exec State (Unit {0})
  health = get_queue_properties
