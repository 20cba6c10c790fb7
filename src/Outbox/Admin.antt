-- ===== src/Outbox/Admin.antt =====
-- backend/src/modules/outbox/admin.rs: an administrator's retry of a failed event. `now` is the
-- database's clock.
use entitle_hub.Base.{
  ℕ, Bool, false, ◌&&◌, not, none, some, List, ◌∷◌, String, str_eq, ◌==◌, if◌then◌else◌,
}
use entitle_hub.Base.Rows.{find, exists, update}
use entitle_hub.Error.{Result, ok, err, ◌>>=◌, ◌>>◌, reject_if, ok_or, not_found, conflict}
use entitle_hub.Admin.{AdminContext, ensure_admin_permission}
use entitle_hub.Store.{AuditEntry}
use entitle_hub.Outbox.{OutboxEvent}

unfoldable pub ensure_retryable_status : String → Result (Unit {0})
ensure_retryable_status status =
    if str_eq status "failed"
    then ok tt
    else err (conflict "only failed outbox events can be retried")

module _ {V : Type 0} where
  -- The rows of a tenant; an event without a tenant belongs to none.
  abbrev pub is_tenant_event : (tenant_id event_id : ℕ) → OutboxEvent V → Bool
  is_tenant_event tenant_id event_id e =
      elim e.tenant_id [ none ↦ false | some t ↦ t == tenant_id ] && e.id == event_id

  unfoldable pub retry_event :
      ℕ
      → List (OutboxEvent V)
      → (tenant_id event_id : ℕ) → Result (OutboxEvent V × List (OutboxEvent V))
  retry_event now events tenant_id event_id =
      let rows =
        update (λ e. is_tenant_event tenant_id event_id e && str_eq e.status "failed")
          (λ e. record e {
            status = "pending";
            attempts = 0;
            next_run_at = now;
            last_error = none;
            processed_at = none;
          })
          events in
      do
        reject_if
            (not (
              exists (λ e. is_tenant_event tenant_id event_id e && str_eq e.status "failed")
                events))
            (conflict "only failed outbox events can be retried")
        event ←
            ok_or (find (is_tenant_event tenant_id event_id) rows)
              (conflict "only failed outbox events can be retried")
        ok (event, rows)

  unfoldable pub retry_outbox_event :
      ℕ
      → List (OutboxEvent V)
      → List AuditEntry
      → AdminContext
      → ℕ
      → Result (OutboxEvent V × List (OutboxEvent V) × List AuditEntry)
  unfolding ensure_retryable_status retry_event
  retry_outbox_event now events log admin event_id = do
    ensure_admin_permission admin "security:retry_event"
    before ←
        ok_or (find (is_tenant_event admin.tenant_id event_id) events)
          (not_found "outbox event not found")
    ensure_retryable_status before.status
    (event, rows) ← retry_event now events admin.tenant_id event_id
    let entry : AuditEntry = record {
      tenant_id = admin.tenant_id;
      actor_type = "team_member";
      actor_id = some admin.team_member_id;
      action = "outbox_event.retry";
      resource_type = "outbox_event";
      resource_id = some event.id;
    }
    ok (event, rows, entry ∷ log)
