-- ===== src/Outbox.antt =====
-- backend/src/modules/outbox/worker.rs: the table of events that wait for delivery, and one tick of
-- the worker. The statements of a tick are committed one by one. Attempts start at 0 and only grow
-- by 1, so they are natural numbers. The mail server, the envelope of the body and the other workers'
-- locks are parameters. Writes that fail are left out.
pub mod Admin
pub mod Retries
pub mod GivesUp
pub mod Stale
use Prim.Native.String as Text
use entitle_hub.Base.{
  ℕ, zero, suc, ◌+◌, ◌-◌, ◌*◌, ◌^◌, Bool, true, false, ◌&&◌, ◌||◌, not, Option, none, some, List,
  [], ◌∷◌, map, String, str_eq, ◌==◌, ltb, leb, if◌then◌else◌,
}
use entitle_hub.Base.Rows.{find, exists, update, select, take}
use entitle_hub.Base.Text.{trim, is_empty, starts_with, take_chars, byte_len}
use entitle_hub.Base.Values.{Value}
use entitle_hub.Email.{Attempt, undone, done, Mailer, EmailDeliveryMessage, parse_email_payload}
use entitle_hub.Error.{Result, ok, err, ◌>>=◌, ◌>>◌, reject_if, ok_or, not_found, conflict}
use entitle_hub.Admin.{AdminContext, ensure_admin_permission}
use entitle_hub.Store.{AuditEntry}

pub record OutboxEvent (V : Type 0) : Type 0 where
  pub id : ℕ
  pub tenant_id : Option ℕ
  pub event_type : String
  pub payload : Value V
  pub status : String
  pub attempts : ℕ
  pub next_run_at : ℕ
  pub last_error : Option String
  pub created_at : ℕ
  pub processed_at : Option ℕ

pub record EmailOutboxJob (V : Type 0) : Type 0 where
  pub id : ℕ
  pub payload : Value V
  pub attempts : ℕ

-- What the worker reads of `config.email`.
pub record EmailConfig : Type 0 where
  pub outbox_batch_size : ℕ
  pub outbox_processing_timeout : ℕ
  pub outbox_max_attempts : ℕ

abbrev pub max_error_len : ℕ
max_error_len = 2000

unfoldable pub truncate_error : String → String
unfolding byte_len take_chars
truncate_error error =
    if leb (byte_len error) max_error_len then error else take_chars max_error_len error

-- `clamp(1, 6)`
abbrev clamp_attempts : ℕ → ℕ
clamp_attempts n = if ltb n 1 then 1 else if ltb 6 n then 6 else n

unfoldable pub retry_delay_seconds : ℕ → ℕ
retry_delay_seconds attempts = 30 * 2 ^ (clamp_attempts attempts - 1)

module _ {V : Type 0} where
  -- The order of `order by next_run_at asc, created_at asc`.
  abbrev pub precedes : OutboxEvent V → OutboxEvent V → Bool
  precedes a b =
      ltb a.next_run_at b.next_run_at
      || (a.next_run_at == b.next_run_at && leb a.created_at b.created_at)

  unfoldable pub insert : OutboxEvent V → List (OutboxEvent V) → List (OutboxEvent V)
  insert e [] = e ∷ []
  insert e (f ∷ rows) = let rest = insert e rows in if precedes e f then e ∷ f ∷ rows else f ∷ rest

  unfoldable pub ordered : List (OutboxEvent V) → List (OutboxEvent V)
  unfolding insert
  ordered [] = []
  ordered (e ∷ rows) = insert e (ordered rows)

  -- Which events may be claimed.
  unfoldable pub is_due : ℕ → OutboxEvent V → Bool
  is_due now e =
      starts_with "email." e.event_type
      && leb e.next_run_at now
      && (str_eq e.status "pending" || str_eq e.status "processing")

  -- The events of the inner `select`, without those that another worker has locked.
  unfoldable pub claimable : EmailConfig → ℕ → (ℕ → Bool) → List (OutboxEvent V) → List ℕ
  unfolding take ordered select is_due starts_with
  claimable config now locked events =
      map (λ e. e.id)
        (take config.outbox_batch_size
          (ordered (select (λ e. is_due now e && not (locked e.id)) events)))

  abbrev pub claimed : EmailConfig → ℕ → OutboxEvent V → OutboxEvent V
  claimed config now e = record e {
    status = "processing";
    attempts = e.attempts + 1;
    last_error = none;
    next_run_at = now + config.outbox_processing_timeout;
  }

  abbrev pub job_of : OutboxEvent V → EmailOutboxJob V
  job_of e = record { id = e.id; payload = e.payload; attempts = e.attempts }

  abbrev pub is_one_of : List ℕ → OutboxEvent V → Bool
  is_one_of ids e = exists (λ i. i == e.id) ids

  unfoldable pub claim_pending_email_jobs :
      EmailConfig
      → ℕ
      → (ℕ → Bool)
      → List (OutboxEvent V)
      → List (EmailOutboxJob V) × List (OutboxEvent V)
  unfolding claimable exists update select
  claim_pending_email_jobs config now locked events =
      let ids = claimable config now locked events in
      let rows = update (is_one_of ids) (claimed config now) events in
      (map job_of (select (is_one_of ids) rows), rows)

  abbrev pub is_event : ℕ → OutboxEvent V → Bool
  is_event id e = e.id == id

  abbrev pub processed : ℕ → OutboxEvent V → OutboxEvent V
  processed now e = record e { status = "processed"; processed_at = some now; last_error = none }

  unfoldable pub mark_job_processed : ℕ → List (OutboxEvent V) → ℕ → List (OutboxEvent V)
  mark_job_processed now events job_id = update (is_event job_id) (processed now) events

  -- A row whose delivery did not succeed.
  unfoldable pub after_failure :
      EmailConfig → ℕ → (attempts : ℕ) → String → OutboxEvent V → OutboxEvent V
  unfolding retry_delay_seconds truncate_error
  after_failure config now attempts error e =
      if leb config.outbox_max_attempts attempts
      then record e {
        status = "failed";
        last_error = some (truncate_error error);
        processed_at = some now;
      }
      else record e {
        status = "pending";
        last_error = some (truncate_error error);
        next_run_at = now + retry_delay_seconds attempts;
      }

  unfoldable pub mark_job_failed :
      EmailConfig → ℕ → List (OutboxEvent V) → (job_id attempts : ℕ) → String → List (OutboxEvent V)
  unfolding after_failure update
  mark_job_failed config now events job_id attempts error =
      update (is_event job_id) (after_failure config now attempts error) events

  sent : Mailer V → Attempt EmailDeliveryMessage → Attempt (Unit {0})
  sent mailer (undone e) = undone e
  sent mailer (done message) = mailer.send_email message

  -- The delivery of a job, up to the mark that it is processed.
  unfoldable pub deliver : Mailer V → EmailOutboxJob V → Attempt (Unit {0})
  unfolding sent parse_email_payload
  deliver mailer job = sent mailer (parse_email_payload mailer job.payload)

  abbrev pub mark :
      EmailConfig
      → ℕ
      → List (OutboxEvent V)
      → EmailOutboxJob V
      → Attempt (Unit {0})
      → List (OutboxEvent V)
  mark config now events job (undone e) = mark_job_failed config now events job.id job.attempts e
  mark config now events job (done _) = mark_job_processed now events job.id

  -- The jobs of a batch one after the other; `clock` tells when each is marked.
  unfoldable pub process_jobs :
      EmailConfig
      → Mailer V
      → (ℕ → ℕ)
      → List (EmailOutboxJob V)
      → List (OutboxEvent V)
      → List (OutboxEvent V)
  process_jobs config mailer clock [] events = events
  process_jobs config mailer clock (job ∷ jobs) events =
      process_jobs config mailer clock jobs
        (mark config (clock job.id) events job (deliver mailer job))

  -- Without a configured mail server nothing is claimed.
  unfoldable pub process_pending_email_batch :
      EmailConfig
      → Option (Mailer V)
      → ℕ
      → (ℕ → Bool)
      → (ℕ → ℕ)
      → List (OutboxEvent V)
      → List (OutboxEvent V)
  process_pending_email_batch config none now locked clock events = events
  process_pending_email_batch config (some mailer) now locked clock events =
      let (jobs, rows) = claim_pending_email_jobs config now locked events in
      process_jobs config mailer clock jobs rows
