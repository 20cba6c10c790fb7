-- ===== src/Outbox/Stale.antt =====
-- backend/src/modules/outbox/worker.rs: a worker whose claim has timed out.
use mathlib.Core.Option
use entitle_hub.Base.{ℕ, ◌+◌, ◌<◌, ◌≡◌, refl, ap, ◌∙◌, true, some, List, String, arith, eq_iff}
use entitle_hub.Base.Rows.{find, find-update-same}
use entitle_hub.Base.Text.{starts_with}
use entitle_hub.Outbox.GivesUp.{after_failure-id, after_failure-retried}
use entitle_hub.Outbox.{
  OutboxEvent, processed, EmailConfig, is_event, is_due, mark_job_failed, mark_job_processed,
  after_failure, retry_delay_seconds,
}

module _ {V : Type 0} where
  -- The row that a late failure leaves.
  late : EmailConfig → (t₁ t₂ attempts : ℕ) → String → OutboxEvent V → OutboxEvent V
  late config t₁ t₂ attempts m e = after_failure config t₂ attempts m (processed t₁ e)

  late-find :
      (config : EmailConfig) (events : List (OutboxEvent V)) (id t₁ t₂ attempts : ℕ) (m : String)
      → find
          (is_event id)
          (mark_job_failed config t₂ (mark_job_processed t₁ events id) id attempts m)
        ≡ Option.map
            (after_failure config t₂ attempts m)
            (Option.map (processed t₁) (find (is_event id) events))
  unfolding mark_job_failed mark_job_processed
  late-find config events id t₁ t₂ attempts m =
      find-update-same (is_event id) (after_failure config t₂ attempts m)
        (mark_job_processed t₁ events id)
        (λ e. ground (arith, after_failure-id config t₂ attempts m e))
      ∙ ap (Option.map (after_failure config t₂ attempts m))
          (find-update-same (is_event id) (processed t₁) events (λ e. refl))

  pending-due :
      (now : ℕ) (e : OutboxEvent V)
      → starts_with "email." e.event_type ≡ true
      → e.status ≡ "pending"
      → e.next_run_at ≡ now
      → is_due now e ≡ true
  unfolding is_due
  pending-due now e mail status time = ground (arith, eq_iff e.status "pending")

  late-due :
      (config : EmailConfig) (t₁ t₂ attempts : ℕ) (m : String) (e : OutboxEvent V)
      → starts_with "email." e.event_type ≡ true
      → attempts < config.outbox_max_attempts
      → (is_due (t₂ + retry_delay_seconds attempts) (late config t₁ t₂ attempts m e) ≡ true)
        × ((late config t₁ t₂ attempts m e).processed_at ≡ some t₁)
  unfolding late
  late-due config t₁ t₂ attempts m e mail more =
      rw (after_failure-retried config t₂ attempts m (processed t₁ e) (ground arith))
        (pending-due (t₂ + retry_delay_seconds attempts) _ mail refl refl, refl)

  -- A failure that is marked, with an attempt left, after another worker has marked the same email
  -- as processed makes the event pending: it is due once more after the delay, although it keeps the
  -- time of its delivery.
  pub stale_failure-due :
      (config : EmailConfig) (events : List (OutboxEvent V)) (id t₁ t₂ attempts : ℕ) (m : String)
      (e : OutboxEvent V)
      → find (is_event id) events ≡ some e
      → starts_with "email." e.event_type ≡ true
      → attempts < config.outbox_max_attempts
      → (f : OutboxEvent V) × (find
            (is_event id)
            (mark_job_failed config t₂ (mark_job_processed t₁ events id) id attempts m)
          ≡ some f)
        × (is_due (t₂ + retry_delay_seconds attempts) f ≡ true)
        × (f.processed_at ≡ some t₁)
  unfolding late
  stale_failure-due config events id t₁ t₂ attempts m e row mail more =
      let due = late-due config t₁ t₂ attempts m e mail more in
      (
        late config t₁ t₂ attempts m e,
        late-find config events id t₁ t₂ attempts m
            ∙ ap
                (λ r. Option.map (after_failure config t₂ attempts m) (Option.map (processed t₁) r))
                row,
        due.0,
        due.1,
      )
