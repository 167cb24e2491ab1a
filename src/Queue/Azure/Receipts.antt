-- ===== src/Queue/Azure/Receipts.antt =====
-- The receipt of a job of the Azure queue, from its delivery to its acknowledgement.
use azure_ml_optimization_pl.Base.{ℕ, ◌≡◌, ◌∙◌, none, some, List, [], ◌∷◌}
use azure_ml_optimization_pl.Errors.{ok}
use azure_ml_optimization_pl.Exec.{Exec, pure, ◌>>=◌}
use azure_ml_optimization_pl.Exec.Ensures.{bind_inverse}
use azure_ml_optimization_pl.Queue.Azure.{
  Client, Messages, Item, Job, job_of, receive, acknowledge, renew, lift,
}

module _ (client : Client) where
  open client use {
    State, MessageId, Pop, current, receive_messages, delete_message, update_message,
    received_current, updated_current, deleted_current, update_stale, delete_stale,
  }

  -- The message of the job is in the queue, with the job's receipt.
  abbrev pub Holds : Job client → State → Type 0
  Holds job s = current job.receipt.0 s ≡ some job.receipt.1

  -- The renewals of the thread, by their timeouts.
  unfoldable pub renew_each : List ℕ → Job client → Exec State (Job client)
  renew_each [] job = pure job
  renew_each (v ∷ vs) job = renew client job v >>= renew_each vs

  pure-Holds :
      (a b : Job client) (u t : State)
      → pure a u ≡ (ok b, t)
      → Holds a u
      → (Holds b t) × (b.message ≡ a.message)
  unfolding pure
  pure-Holds a b u t h held = (cc (h, held), cc h)

  some-Holds :
      (a b : Job client) (u t : State) → pure (some a) u ≡ (ok (some b), t) → Holds a u → Holds b t
  unfolding pure
  some-Holds a b u t h held = cc (h, held)

  job_of-Holds :
      (json : Messages) (xs : List (Item MessageId Pop)) (v : ℕ) (s t t' : State) (job : Job client)
      → receive_messages v s ≡ (ok xs, t)
      → job_of client json xs t ≡ (ok (some job), t')
      → Holds job t'
  unfolding job_of pure
  job_of-Holds json [] v s t t' job e h = cc
  job_of-Holds json (x ∷ xs) v s t t' job e h =
      let (m, u, decoded, made) =
        bind_inverse (lift client (json.decode x.content)) _ t t' (some job) h in
      let held = received_current v s t x xs e in some-Holds _ job u t' made (cc (held, decoded))

  renewed-Holds :
      (v : ℕ) (job job' : Job client) (s t : State)
      → renew client job v s ≡ (ok job', t)
      → (Holds job' t) × (job'.message ≡ job.message)
  unfolding renew pure
  renewed-Holds v job job' s t h =
      let (q, u, updated, made) =
        bind_inverse (update_message job.receipt.0 job.receipt.1 v) _ s t job' h in
      let held = updated_current job.receipt.0 job.receipt.1 q v s u updated in
      pure-Holds _ job' u t made held

  receive-Holds :
      (json : Messages) (v : ℕ) (s t : State) (job : Job client)
      → receive client json v s ≡ (ok (some job), t)
      → Holds job t
  unfolding receive
  receive-Holds json v s t job h =
      let (xs, u, received, behind) = bind_inverse (receive_messages v) _ s t (some job) h in
      job_of-Holds json xs v s u t job received behind

  renew_each-Holds :
      (vs : List ℕ) (job job' : Job client) (s t : State)
      → Holds job s
      → renew_each vs job s ≡ (ok job', t)
      → (Holds job' t) × (job'.message ≡ job.message)
  unfolding renew_each
  renew_each-Holds [] job job' s t held h = pure-Holds job job' s t h held
  renew_each-Holds (v ∷ vs) job job' s t held h =
      let (next, u, renewed, behind) = bind_inverse (renew client job v) _ s t job' h in
      let (held', same) = renewed-Holds v job next s u renewed in
      let (last, same') = renew_each-Holds vs next job' u t held' behind in (last, same' ∙ same)

  -- A job that was received, and renewed any number of times without an exception, has the message
  -- it was received with and the receipt that the queue has; so if it is acknowledged then without
  -- an exception, the message is no longer in the queue.
  pub receive-acknowledge :
      (json : Messages) (v : ℕ) (vs : List ℕ) (job job' : Job client) (s t u : State)
      → receive client json v s ≡ (ok (some job), t)
      → renew_each vs job t ≡ (ok job', u)
      → (job'.message ≡ job.message)
        × (Holds job' u)
        × ((w : State) → acknowledge client job' u ≡ (ok tt, w) → current job'.receipt.0 w ≡ none)
  unfolding acknowledge
  receive-acknowledge json v vs job job' s t u received renewed =
      let (held, same) =
        renew_each-Holds vs job job' t u (receive-Holds json v s t job received) renewed in
      (same, held, λ w h. deleted_current job'.receipt.0 job'.receipt.1 u w h)
