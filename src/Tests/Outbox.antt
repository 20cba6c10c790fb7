-- ===== src/Tests/Outbox.antt =====
-- Tests of the outbox.
use entitle_hub.Base.{ℕ, ◌+◌, ◌≡◌, refl, true, false, none, some, [], ◌∷◌, String, arith}
use entitle_hub.Base.Rows.{find, exists, count}
use entitle_hub.Base.Text.{trim, is_empty, starts_with}
use entitle_hub.Error.{ok}
use entitle_hub.Base.Values.{Value, string}
use entitle_hub.Tests.{value}
use entitle_hub.Email.{
  Mailer, Sealer, Attempt, undone, done, build_encrypted_email_payload, parse_email_payload,
  token_action_url,
}
use entitle_hub.Email.Stored.{Opens, parse_email_payload-build}
use entitle_hub.Outbox.{
  OutboxEvent, EmailConfig, is_event, is_due, claimable, mark_job_failed, mark_job_processed,
  deliver, retry_delay_seconds, process_pending_email_batch,
}
use entitle_hub.Outbox.GivesUp.{Tick, KeepsFailing, run_ticks, undeliverable-given_up}
use entitle_hub.Outbox.Stale.{stale_failure-due}

trimmed_url :
    token_action_url (some "https://example.com/") "/verify" "token"
    ≡ some "https://example.com/verify?token=token"
unfolding token_action_url
trimmed_url = refl

abbrev opened : Value String → Attempt String
opened (string body) = done body
opened _ = undone "email payload body_envelope is invalid"

abbrev mailer : Mailer String
mailer = record { open_envelope = opened; send_email = λ m. undone "connection refused" }

-- The envelope of a text is the text.
abbrev sealer : Sealer String
sealer = record { seal = λ text. ok (string text) }

sealer-Opens : Opens mailer sealer
sealer-Opens = record { opens_sealed = λ text e sealed. ground arith }

abbrev stored : Value String
stored =
    value (build_encrypted_email_payload sealer "user@example.com " "Hello" "hello email")
      (string "")

parse_email_payload-build_example :
    parse_email_payload mailer stored
    ≡ done (record { to = "user@example.com"; subject = "Hello"; body = "hello email" })
unfolding is_empty trim build_encrypted_email_payload
parse_email_payload-build_example =
    parse_email_payload-build mailer sealer "user@example.com " "Hello" "hello email" stored
      sealer-Opens refl refl refl

abbrev config : EmailConfig
config = record { outbox_batch_size = 10; outbox_processing_timeout = 300; outbox_max_attempts = 2 }

abbrev event : OutboxEvent String
event = record {
  id = 7;
  tenant_id = some 1;
  event_type = "email.team_invite";
  payload = stored;
  status = "pending";
  attempts = 0;
  next_run_at = 0;
  last_error = none;
  created_at = 0;
  processed_at = none;
}

abbrev tick_at : ℕ → Tick String
tick_at t = record { now = t; locked = λ id. false; clock = λ id. t + 1; mailer = mailer }

fails_twice : KeepsFailing config 7 event.payload (event ∷ []) (tick_at 10 ∷ tick_at 50 ∷ [])
unfolding KeepsFailing exists claimable deliver is_empty trim process_pending_email_batch
    entitle_hub.Outbox.process_jobs entitle_hub.Outbox.claim_pending_email_jobs mark_job_failed
    build_encrypted_email_payload
fails_twice = (refl, ("connection refused", refl), (refl, ("connection refused", refl), tt))

undeliverable-given_up_example :
    (f : OutboxEvent String) × (find
        (is_event 7)
        (run_ticks config (event ∷ []) (tick_at 10 ∷ tick_at 50 ∷ []))
      ≡ some f)
    × (f.status ≡ "failed")
    × (f.attempts ≡ 2)
unfolding count find
undeliverable-given_up_example =
    undeliverable-given_up config (event ∷ []) (tick_at 10 ∷ tick_at 50 ∷ []) 7 event refl refl
      fails_twice (omega arith) refl

stale_failure-due_example :
    (f : OutboxEvent String) × (find
        (is_event 7)
        (mark_job_failed config 420 (mark_job_processed 400 (event ∷ []) 7) 7 1 "timed out")
      ≡ some f)
    × (is_due (420 + retry_delay_seconds 1) f ≡ true)
    × (f.processed_at ≡ some 400)
unfolding find starts_with
stale_failure-due_example =
    stale_failure-due config (event ∷ []) 7 400 420 1 "timed out" event refl refl (omega arith)
