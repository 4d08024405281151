-- ===== src/OutboxRepo.antt =====
-- internal/repository/outbox.go: the transactional outbox.
use ficct_boutique_backend_g.Base.{
  ℕ, Bool, true, false, String, none, some, List, ◌==◌, ◌&&◌, not, if◌then◌else◌, select_where,
  any_where, update_where, insert_row, order_by, leb, take,
}
use ficct_boutique_backend_g.Models.{
  Uuid, Timestamp, SaleConfirmedWebhookPayload, WebhookStatus, WebhookEvent,
}
use ficct_boutique_backend_g.Store.{
  Error, Tx, Env, ok, pure, ◌>>=◌, ◌>>◌, gets, fail_if, in_transaction,
}

abbrev pub put_outbox : List WebhookEvent → Tx (Unit {0})
put_outbox rows db = ok tt (record db { outbox = rows })

abbrev pub new_event : Env → String → Uuid → SaleConfirmedWebhookPayload → String → WebhookEvent
new_event env event_type aggregate payload target = record {
  id = env.uuid 1;
  event_type = event_type;
  aggregate_id = aggregate;
  payload = payload;
  target_url = target;
  status = WebhookStatus.pending;
  attempts = 0;
  last_error = none;
  next_attempt_at = env.now;
  delivered_at = none;
  created_at = env.now;
}

-- INSERT INTO webhook_outbox … RETURNING …; the identifier is the second that the call draws.
unfoldable pub enqueue :
    Env → String → Uuid → SaleConfirmedWebhookPayload → String → Tx WebhookEvent
enqueue env event_type aggregate payload target = do
  rows ← gets (λ db. db.outbox)
  fail_if (any_where (λ e. e.id == env.uuid 1) rows) Error.unique_violation
  put_outbox (insert_row (new_event env event_type aggregate payload target) rows)
  pure (new_event env event_type aggregate payload target)

abbrev pub is_waiting : WebhookStatus → Bool
is_waiting WebhookStatus.pending = true
is_waiting _ = false

-- WHERE status = 'pending' AND next_attempt_at <= NOW()
abbrev pub is_due : Env → WebhookEvent → Bool
is_due env e = is_waiting e.status && leb e.next_attempt_at env.now

-- ORDER BY next_attempt_at ASC LIMIT $1. The transaction is over before the events are used, so
-- its row locks are gone.
unfoldable pub fetch_due : Env → ℕ → Tx (List WebhookEvent)
fetch_due env limit = in_transaction env (
    gets (λ db. take limit (
      order_by (λ x y. leb x.next_attempt_at y.next_attempt_at)
        (select_where (is_due env) db.outbox))))

-- The UPDATE is a statement of its own, which the pool may not execute.
unfoldable pub mark_delivered : Bool → Env → Uuid → Tx (Unit {0})
mark_delivered executes env event = do
  fail_if (not executes) Error.not_executed
  rows ← gets (λ db. db.outbox)
  put_outbox (
      update_where (λ e. e.id == event)
        (λ e. record e {
          status = WebhookStatus.delivered;
          delivered_at = some env.now;
          last_error = none;
        })
        rows)

-- `is_text` are the texts that the column takes: those in UTF-8 and without NUL.
unfoldable pub mark_failed :
    Bool → (String → Bool) → Uuid → ℕ → String → Timestamp → Bool → Tx (Unit {0})
mark_failed executes is_text event attempts msg next terminal = do
  fail_if (not executes) Error.not_executed
  fail_if (not (is_text msg)) Error.invalid_text
  rows ← gets (λ db. db.outbox)
  put_outbox (
      update_where (λ e. e.id == event)
        (λ e. record e {
          status = if terminal then WebhookStatus.failed else WebhookStatus.pending;
          attempts = attempts;
          last_error = some msg;
          next_attempt_at = next;
        })
        rows)
