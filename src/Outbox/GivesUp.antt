-- ===== src/Outbox/GivesUp.antt =====
-- backend/src/modules/outbox/worker.rs: an event that cannot be delivered.
use mathlib.Core.Option
use entitle_hub.Base.{
  ℕ, suc, ◌+◌, ◌<◌, ◌≡◌, refl, ap, ◌∙◌, Bool, true, false, some, List, [], ◌∷◌, map, String, ◌==◌,
  leb, arith,
}
use entitle_hub.Base.Rows.{
  find, exists, update, select, count, find-select, count-update-same, find-update-if, find-true,
}
use entitle_hub.Base.Values.{Value}
use entitle_hub.Outbox.{
  OutboxEvent, processed, EmailOutboxJob, EmailConfig, Mailer, Attempt, undone, done, is_event,
  is_one_of, job_of, claimed, claimable, claim_pending_email_jobs, after_failure, deliver,
  process_pending_email_batch, process_jobs, mark, mark_job_failed, mark_job_processed,
  truncate_error, retry_delay_seconds,
}
use entitle_hub.Outbox.Retries.{process_jobs-find, marked}

-- A tick of the worker: when it claims, what other workers have locked, when it marks each job, and
-- its mail server.
pub record Tick (V : Type 0) : Type 0 where
  pub now : ℕ
  pub locked : ℕ → Bool
  pub clock : ℕ → ℕ
  pub mailer : Mailer V

module _ {V : Type 0} where
  abbrev pub tick : EmailConfig → List (OutboxEvent V) → Tick V → List (OutboxEvent V)
  tick config events t =
      process_pending_email_batch config (some t.mailer) t.now t.locked t.clock events

  unfoldable pub run_ticks :
      EmailConfig → List (OutboxEvent V) → List (Tick V) → List (OutboxEvent V)
  run_ticks config events [] = events
  run_ticks config events (t ∷ ticks) = run_ticks config (tick config events t) ticks

  -- Each tick claims the event, and its delivery fails.
  unfoldable pub KeepsFailing :
      EmailConfig → ℕ → Value V → List (OutboxEvent V) → List (Tick V) → Type 0
  KeepsFailing config id payload events [] = Unit
  KeepsFailing config id payload events (t ∷ ticks) =
      (exists (λ i. i == id) (claimable config t.now t.locked events) ≡ true)
      × ((m : String) × (deliver t.mailer (record { id = id; payload = payload; attempts = 0 })
            ≡ undone m))
      × KeepsFailing config id payload (tick config events t) ticks

  one_of :
      (id : ℕ) (ids : List ℕ) (e : OutboxEvent V)
      → exists (λ i. i == id) ids ≡ true
      → is_event id e ≡ true
      → is_one_of ids e ≡ true
  unfolding exists
  one_of id [] e chosen same = cc
  one_of id (i ∷ ids) e chosen same = ground (arith, one_of id ids e)

  jobs-find :
      (id : ℕ) (rows : List (OutboxEvent V))
      → (find (λ j. j.id == id) (map job_of rows) ≡ Option.map job_of (find (is_event id) rows))
        × (count (λ j. j.id == id) (map job_of rows) ≡ count (is_event id) rows)
  unfolding find count
  jobs-find id [] = (refl, refl)
  jobs-find id (e ∷ rows) = ground (arith, jobs-find id rows)

  deliver_payload :
      (mailer : Mailer V) (a b : EmailOutboxJob V)
      → a.payload ≡ b.payload
      → deliver mailer a ≡ deliver mailer b
  unfolding deliver
  deliver_payload mailer a b same = ground arith

  -- The row and the job of an event that a tick claims.
  claim-find :
      (config : EmailConfig) (now : ℕ) (locked : ℕ → Bool) (events : List (OutboxEvent V)) (id : ℕ)
      (e : OutboxEvent V)
      → count (is_event id) events ≡ 1
      → find (is_event id) events ≡ some e
      → exists (λ i. i == id) (claimable config now locked events) ≡ true
      → let (jobs, rows) = claim_pending_email_jobs config now locked events in
        (find (is_event id) rows ≡ some (claimed config now e))
        × (find (λ j. j.id == id) jobs ≡ some (job_of (claimed config now e)))
        × (count (λ j. j.id == id) jobs ≡ 1)
  unfolding claim_pending_email_jobs
  claim-find config now locked events id e one row chosen =
      let ids = claimable config now locked events in
      let rows = update (is_one_of ids) (claimed config now) events in
      let row' : find (is_event id) rows ≡ some (claimed config now e) = ground (
        arith,
        find-update-if (is_event id) (is_one_of ids) (claimed config now) events (λ a. refl),
        one_of id ids e,
        find-true (is_event id) events e row,
      ) in
      let one' =
        count-update-same (is_event id) (is_one_of ids) (claimed config now) events (λ a. refl) in
      let kept = find-select (is_one_of ids) (is_event id) rows (λ a. one_of id ids a chosen) in
      let jobs = jobs-find id (select (is_one_of ids) rows) in
      (row', jobs.0 ∙ ap (Option.map job_of) (kept.0 ∙ row'), jobs.1 ∙ kept.1 ∙ one' ∙ one)

  pub after_failure-id :
      (config : EmailConfig) (now n : ℕ) (m : String) (e : OutboxEvent V)
      → (after_failure config now n m e).id ≡ e.id
  unfolding after_failure
  after_failure-id config now n m e = ground arith

  -- A tick that claims an event and fails to deliver it.
  tick-find :
      (config : EmailConfig) (events : List (OutboxEvent V)) (t : Tick V) (id : ℕ)
      (e : OutboxEvent V) (m : String)
      → count (is_event id) events ≡ 1
      → find (is_event id) events ≡ some e
      → exists (λ i. i == id) (claimable config t.now t.locked events) ≡ true
      → deliver t.mailer (record { id = id; payload = e.payload; attempts = 0 }) ≡ undone m
      → find (is_event id) (tick config events t)
        ≡ some (after_failure config (t.clock id) (e.attempts + 1) m (claimed config t.now e))
  unfolding process_pending_email_batch
  tick-find config events t id e m one row chosen fails =
      let found = claim-find config t.now t.locked events id e one row chosen in
      let (jobs, rows) = claim_pending_email_jobs config t.now t.locked events in
      let job = job_of (claimed config t.now e) in
      let failed : deliver t.mailer job ≡ undone m =
        deliver_payload t.mailer job (record { id = id; payload = e.payload; attempts = 0 }) refl
        ∙ fails in
      process_jobs-find config t.mailer t.clock id jobs rows job (claimed config t.now e) found.2
        found.1 found.0
      ∙ ap (λ r. some (marked config (t.clock id) job r (claimed config t.now e))) failed

  abbrev pub length : List (Tick V) → ℕ
  length [] = 0
  length (t ∷ ticks) = suc (length ticks)

  mark-count :
      (config : EmailConfig) (now : ℕ) (events : List (OutboxEvent V)) (job : EmailOutboxJob V)
      (r : Attempt (Unit {0})) (id : ℕ)
      → count (is_event id) (mark config now events job r) ≡ count (is_event id) events
  unfolding mark_job_failed mark_job_processed
  mark-count config now events job (undone m) id =
      count-update-same (is_event id) (is_event job.id) (after_failure config now job.attempts m)
        events (λ e. ground (arith, after_failure-id config now job.attempts m e))
  mark-count config now events job (done _) id =
      count-update-same (is_event id) (is_event job.id) (processed now) events (λ e. refl)

  process_jobs-count :
      (config : EmailConfig) (mailer : Mailer V) (clock : ℕ → ℕ) (jobs : List (EmailOutboxJob V))
      (events : List (OutboxEvent V)) (id : ℕ)
      → count (is_event id) (process_jobs config mailer clock jobs events)
        ≡ count (is_event id) events
  unfolding process_jobs
  process_jobs-count config mailer clock [] events id = refl
  process_jobs-count config mailer clock (job ∷ jobs) events id =
      process_jobs-count config mailer clock jobs
        (mark config (clock job.id) events job (deliver mailer job)) id
      ∙ mark-count config (clock job.id) events job (deliver mailer job) id

  -- A tick neither adds nor removes a row.
  tick-count :
      (config : EmailConfig) (events : List (OutboxEvent V)) (t : Tick V) (id : ℕ)
      → count (is_event id) (tick config events t) ≡ count (is_event id) events
  unfolding process_pending_email_batch claim_pending_email_jobs
  tick-count config events t id =
      let (jobs, rows) = claim_pending_email_jobs config t.now t.locked events in
      process_jobs-count config t.mailer t.clock jobs rows id
      ∙ count-update-same (is_event id) (is_one_of (claimable config t.now t.locked events))
          (claimed config t.now) events (λ e. refl)

  -- A failure that is not the last leaves a pending row.
  pub after_failure-retried :
      (config : EmailConfig) (now n : ℕ) (m : String) (e : OutboxEvent V)
      → leb config.outbox_max_attempts n ≡ false
      → after_failure config now n m e ≡ record e {
        status = "pending";
        last_error = some (truncate_error m);
        next_run_at = now + retry_delay_seconds n;
      }
  unfolding after_failure
  after_failure-retried config now n m e more = ground arith

  after_failure-last :
      (config : EmailConfig) (now n : ℕ) (m : String) (e : OutboxEvent V)
      → leb config.outbox_max_attempts n ≡ true
      → ((after_failure config now n m e).status ≡ "failed")
        × ((after_failure config now n m e).attempts ≡ e.attempts)
  unfolding after_failure
  after_failure-last config now n m e last = ground arith

  -- An event with attempts left, alone with its identifier, that every tick of the worker claims and
  -- fails to deliver, whatever the other events, the locks and the clocks, is given up: when the
  -- ticks have used up `outbox_max_attempts`, its row is failed and counts exactly that many.
  pub undeliverable-given_up :
      (config : EmailConfig) (events : List (OutboxEvent V)) (ticks : List (Tick V)) (id : ℕ)
      (e : OutboxEvent V)
      → count (is_event id) events ≡ 1
      → find (is_event id) events ≡ some e
      → KeepsFailing config id e.payload events ticks
      → e.attempts < config.outbox_max_attempts
      → e.attempts + length ticks ≡ config.outbox_max_attempts
      → (f : OutboxEvent V) × (find (is_event id) (run_ticks config events ticks) ≡ some f)
        × (f.status ≡ "failed")
        × (f.attempts ≡ config.outbox_max_attempts)
  unfolding run_ticks KeepsFailing
  undeliverable-given_up config events [] id e one row fails more enough = ground arith
  undeliverable-given_up config events (t ∷ []) id e one row (chosen, (m, fail), rest) more enough =
      let n = e.attempts + 1 in
      let e' = claimed config t.now e in
      let last = after_failure-last config (t.clock id) n m e' (ground arith) in
      (
        after_failure config (t.clock id) n m e',
        tick-find config events t id e m one row chosen fail,
        last.0,
        last.1 ∙ omega arith,
      )
  undeliverable-given_up config events (t ∷ u ∷ ticks) id e one row (chosen, (m, fail), rest) more
        enough =
      let n = e.attempts + 1 in
      let e' = claimed config t.now e in
      let retried = after_failure-retried config (t.clock id) n m e' (ground arith) in
      undeliverable-given_up config (tick config events t) (u ∷ ticks) id _
        (tick-count config events t id ∙ one)
        (tick-find config events t id e m one row chosen fail ∙ ap some retried) rest (omega arith)
        (omega arith)
