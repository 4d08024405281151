-- ===== src/Dispatcher/Delivery.antt =====
-- What a delivery of internal/webhook/dispatcher.go does to the rows of the outbox.
use ficct_boutique_backend_g.Base.{
  ℕ, ◌+◌, ◌≡◌, ◌∙◌, refl, ap, sym, ◌&&◌, ◌||◌, List, [], ◌∷◌, Bool-cases, inl, inr, Bool, true,
  false, String, Option, none, some, ◌==◌, leb, if◌then◌else◌, find_where, update_where,
  find_where-update_where, find_where-passes,
}
use mathlib.Core.Option
use ficct_boutique_backend_g.Models.{Uuid, WebhookStatus, WebhookEvent}
use ficct_boutique_backend_g.Store.{Db, Env, ok, after}
use ficct_boutique_backend_g.OutboxRepo.{mark_delivered, mark_failed}
use ficct_boutique_backend_g.Dispatcher.{
  Response, no_request, no_answer, answered, Network, is_success, deliver, mark_failure,
  mark_success, handle,
}
use ficct_boutique_backend_g.Dispatcher.Backoff.{next_attempt}

-- The receiver took the event.
abbrev pub accepted : Response → Bool
accepted (no_request msg) = false
accepted (no_answer msg) = false
accepted (answered code body) = is_success code

-- The row of an event.
abbrev pub event_at : Uuid → Db → Option WebhookEvent
event_at id db = find_where (λ e. e.id == id) db.outbox

abbrev pub failure_text : Network → Response → String
failure_text net (no_request msg) = msg
failure_text net (no_answer msg) = msg
failure_text net (answered code body) = net.status_text code body

-- The row after a delivery that went well, or that failed with a message.
abbrev pub settle : Network → Env → ℕ → ℕ → Bool → String → WebhookEvent → WebhookEvent
settle net env max_retries attempts true msg row = record row {
  status = WebhookStatus.delivered;
  delivered_at = some env.now;
  last_error = none;
}
settle net env max_retries attempts false msg row = record row {
  status = if leb max_retries attempts then WebhookStatus.failed else WebhookStatus.pending;
  attempts = attempts;
  last_error = some msg;
  next_attempt_at = next_attempt net.out_of_range env.now attempts;
}

-- The outcome can be written down: the database executes the UPDATE, and takes the message of a
-- failure.
abbrev pub is_recorded : Network → WebhookEvent → Bool
is_recorded net e =
    let r = net.post e in net.executes e.id && (accepted r || net.is_text (failure_text net r))

abbrev pub settle_if : Bool → Network → Env → ℕ → ℕ → Bool → String → WebhookEvent → WebhookEvent
settle_if b net env max_retries attempts good msg row =
    if b then settle net env max_retries attempts good msg row else row

-- The row after a delivery of the snapshot `e` that the round had read.
abbrev pub settle_event : Network → Env → ℕ → WebhookEvent → WebhookEvent → WebhookEvent
settle_event net env max_retries e =
    let r = net.post e in
    settle_if (is_recorded net e) net env max_retries (e.attempts + 1) (accepted r)
      (failure_text net r)

abbrev pub settled : Network → Env → ℕ → WebhookEvent → Db → Db
settled net env max_retries e db = record db {
  outbox = update_where (λ x. x.id == e.id) (settle_event net env max_retries e) db.outbox;
}

update_where-id :
    (p : WebhookEvent → Bool) (rows : List WebhookEvent) → update_where p (λ x. x) rows ≡ rows
update_where-id p [] = refl
update_where-id p (x ∷ xs) = elim (Bool-cases (p x)) [
  | inl hit ↦ rw hit (ap (λ l. x ∷ l) (update_where-id p xs))
  | inr miss ↦ rw miss (ap (λ l. x ∷ l) (update_where-id p xs))
]

pub unsettled :
    (p : WebhookEvent → Bool) (db : Db)
    → record db { outbox = update_where p (λ x. x) db.outbox } ≡ db
unsettled p db = ap (λ l. record db { outbox = l }) (update_where-id p db.outbox)

module _ (net : Network) (env : Env) (max_retries attempts : ℕ) where
  pub settle-id :
      (good : Bool) (msg : String) (row : WebhookEvent)
      → (settle net env max_retries attempts good msg row).id ≡ row.id
  settle-id true msg row = refl
  settle-id false msg row = refl

  pub settle_if-id :
      (b good : Bool) (msg : String) (row : WebhookEvent)
      → (settle_if b net env max_retries attempts good msg row).id ≡ row.id
  settle_if-id true good msg row = settle-id good msg row
  settle_if-id false good msg row = refl

  either-settled :
      (good : Bool) (msg : String) (id : Uuid) (db : Db)
      → (if good then mark_success net env id else mark_failure net env max_retries id attempts msg)
          db
        ≡ ok tt (record db {
          outbox =
              update_where
                (λ x. x.id == id)
                (settle_if
                  (net.executes id && (good || net.is_text msg))
                  net
                  env
                  max_retries
                  attempts
                  good
                  msg)
                db.outbox;
        })
  unfolding mark_failure mark_failed mark_success mark_delivered
  either-settled true msg id db = elim (Bool-cases (net.executes id)) [
    | inl runs ↦ rw runs refl
    | inr lost ↦ rw lost (ap (ok tt) (sym (unsettled (λ x. x.id == id) db)))
  ]
  either-settled false msg id db = elim (Bool-cases (net.executes id)) [
    | inr lost ↦ rw lost (ap (ok tt) (sym (unsettled (λ x. x.id == id) db)))
    | inl runs ↦ elim (Bool-cases (net.is_text msg)) [
      | inl text ↦ rw (runs, text) refl
      | inr bytes ↦ rw (runs, bytes) (ap (ok tt) (sym (unsettled (λ x. x.id == id) db)))
    ]
  ]

  handle-settled :
      (id : Uuid) (r : Response) (db : Db)
      → handle net env max_retries id attempts r db
        ≡ ok tt (record db {
          outbox =
              update_where
                (λ x. x.id == id)
                (settle_if
                  (net.executes id && (accepted r || net.is_text (failure_text net r)))
                  net
                  env
                  max_retries
                  attempts
                  (accepted r)
                  (failure_text net r))
                db.outbox;
        })
  handle-settled id (no_request msg) db = either-settled false msg id db
  handle-settled id (no_answer msg) db = either-settled false msg id db
  handle-settled id (answered code body) db =
      either-settled (is_success code) (net.status_text code body) id db

pub deliver-settled :
    (net : Network) (env : Env) (max_retries : ℕ) (e : WebhookEvent) (db : Db)
    → deliver net env max_retries e db ≡ ok tt (settled net env max_retries e db)
unfolding deliver
deliver-settled net env max_retries e db =
    handle-settled net env max_retries (e.attempts + 1) e.id (net.post e) db

-- The row of any event after one delivery.
pub event_at-settled :
    (net : Network) (env : Env) (max_retries : ℕ) (e : WebhookEvent) (id : Uuid) (db : Db)
    → event_at id (settled net env max_retries e db)
      ≡ Option.map
          (λ x. if x.id == e.id then settle_event net env max_retries e x else x)
          (event_at id db)
event_at-settled net env max_retries e id db =
    find_where-update_where (λ x. x.id == id) (λ x. x.id == e.id) _ db.outbox
      (λ x. ap (λ i. i == id) (settle_if-id net env max_retries (e.attempts + 1) _ _ _ x))

found_row :
    (id : Uuid) (row : WebhookEvent) (db : Db)
    → event_at id db ≡ some row
    → (f : WebhookEvent → WebhookEvent)
    → Option.map (λ x. if x.id == id then f x else x) (event_at id db) ≡ some (f row)
found_row id row db h f =
    rw h (ap some (rw (find_where-passes (λ x. x.id == id) db.outbox row h).0 refl))

module _ (net : Network) (env : Env) (max_retries : ℕ) (e row : WebhookEvent) (db : Db) where
  -- A delivery that the receiver takes marks the event delivered, with the time and without an
  -- error, and changes nothing else of its row; a delivery that fails, in whichever way, counts
  -- the attempt, keeps the error, and leaves the event pending, to be tried again after the
  -- waiting time, or failed when the attempts allowed are used up. Where the outcome cannot be
  -- recorded the row stays as it was. The delivery itself never fails.
  pub deliver_outcome :
      event_at e.id db ≡ some row
      → deliver net env max_retries e db ≡ ok tt (settled net env max_retries e db)
        × (event_at e.id (after (deliver net env max_retries e db))
            ≡ some (settle_event net env max_retries e row))
  deliver_outcome h =
      let there = event_at-settled net env max_retries e e.id db in
      let done = deliver-settled net env max_retries e db in
      (
        done,
        ap (λ o. event_at e.id (after o)) done
            ∙ (there ∙ found_row e.id row db h (settle_event net env max_retries e)),
      )
