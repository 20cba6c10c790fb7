-- ===== src/Outbox/Retries.antt =====
-- backend/src/modules/outbox/worker.rs: what repeated ticks of the worker do to an event.
use mathlib.Core.Option
use entitle_hub.Base.{
  ℕ, zero, suc, ◌≤◌, ◌≡◌, refl, inl, inr, some, List, [], ◌∷◌, String, ◌==◌, if◌then◌else◌,
  Bool-cases, arith,
}
use entitle_hub.Base.Rows.{find, count, find-update-if, find-true}
use entitle_hub.Outbox.{
  OutboxEvent, processed, EmailOutboxJob, EmailConfig, Mailer, Attempt, undone, done, is_event,
  mark, mark_job_failed, mark_job_processed, after_failure, deliver, process_jobs,
  retry_delay_seconds,
}

-- The delay before a job is tried again lies between half a minute and sixteen minutes, and does not
-- shrink from one attempt to the next.
pub retry_delay_seconds-within :
    (n : ℕ)
    → (30 ≤ retry_delay_seconds n)
      × (retry_delay_seconds n ≤ 960)
      × (retry_delay_seconds n ≤ retry_delay_seconds (suc n))
unfolding retry_delay_seconds
retry_delay_seconds-within zero = omega arith
retry_delay_seconds-within (suc zero) = omega arith
retry_delay_seconds-within (suc (suc zero)) = omega arith
retry_delay_seconds-within (suc (suc (suc zero))) = omega arith
retry_delay_seconds-within (suc (suc (suc (suc zero)))) = omega arith
retry_delay_seconds-within (suc (suc (suc (suc (suc zero))))) = omega arith
retry_delay_seconds-within (suc (suc (suc (suc (suc (suc n)))))) = ground arith

module _ {V : Type 0} (config : EmailConfig) where
  -- What the marking of a job does to its row.
  abbrev pub marked : ℕ → EmailOutboxJob V → Attempt (Unit {0}) → OutboxEvent V → OutboxEvent V
  marked now job (undone e) row = after_failure config now job.attempts e row
  marked now job (done _) row = processed now row

  after_failure-id :
      (now n : ℕ) (m : String) (e : OutboxEvent V) → ((after_failure config now n m e).id ≡ e.id)
  unfolding after_failure
  after_failure-id now n m e = ground arith

  mark-find :
      (now id : ℕ) (events : List (OutboxEvent V)) (job : EmailOutboxJob V) (r : Attempt (Unit {0}))
      → find (is_event id) (mark config now events job r)
        ≡ Option.map
            (λ e. if e.id == job.id then marked now job r e else e)
            (find (is_event id) events)
  unfolding mark_job_failed mark_job_processed
  mark-find now id events job (undone m) =
      find-update-if (is_event id) (is_event job.id) (after_failure config now job.attempts m)
        events (λ e. ground (arith, after_failure-id now job.attempts m e))
  mark-find now id events job (done _) =
      find-update-if (is_event id) (is_event job.id) (processed now) events (λ e. refl)

  -- The row of an event after the marking of a job.
  mark-row :
      (now id : ℕ) (events : List (OutboxEvent V)) (job : EmailOutboxJob V) (r : Attempt (Unit {0}))
      (e : OutboxEvent V)
      → find (is_event id) events ≡ some e
      → find (is_event id) (mark config now events job r)
        ≡ some (if job.id == id then marked now job r e else e)
  mark-row now id events job r e row =
      ground (arith, mark-find now id events job r, find-true (is_event id) events e row)

  -- The jobs of other events do not touch an event.
  process_jobs-other :
      (mailer : Mailer V) (clock : ℕ → ℕ) (id : ℕ) (jobs : List (EmailOutboxJob V))
      (events : List (OutboxEvent V)) (e : OutboxEvent V)
      → count (λ j. j.id == id) jobs ≡ 0
      → find (is_event id) events ≡ some e
      → find (is_event id) (process_jobs config mailer clock jobs events) ≡ some e
  unfolding process_jobs count
  process_jobs-other mailer clock id [] events e none_left row = row
  process_jobs-other mailer clock id (job ∷ jobs) events e none_left row =
      process_jobs-other mailer clock id jobs
        (mark config (clock job.id) events job (deliver mailer job)) e (ground arith)
        (ground (arith, mark-row (clock job.id) id events job (deliver mailer job) e row))

  -- A batch marks the row of an event by the outcome of its only job.
  pub process_jobs-find :
      (mailer : Mailer V) (clock : ℕ → ℕ) (id : ℕ) (jobs : List (EmailOutboxJob V))
      (events : List (OutboxEvent V)) (job : EmailOutboxJob V) (e : OutboxEvent V)
      → count (λ j. j.id == id) jobs ≡ 1
      → find (λ j. j.id == id) jobs ≡ some job
      → find (is_event id) events ≡ some e
      → find (is_event id) (process_jobs config mailer clock jobs events)
        ≡ some (marked (clock id) job (deliver mailer job) e)
  unfolding process_jobs count find
  process_jobs-find mailer clock id [] events job e one found row = cc
  process_jobs-find mailer clock id (first ∷ jobs) events job e one found row =
      let next = mark config (clock first.id) events first (deliver mailer first) in
      elim (Bool-cases (first.id == id)) [
        | inl same ↦ ground (
          arith,
          process_jobs-other mailer clock id jobs next
              (marked (clock first.id) first (deliver mailer first) e),
          mark-row (clock first.id) id events first (deliver mailer first) e row,
        )
        | inr other ↦
            process_jobs-find mailer clock id jobs next job e (ground arith) (ground arith) (
              ground
                (arith, mark-row (clock first.id) id events first (deliver mailer first) e row))
      ]
