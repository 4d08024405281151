-- ===== src/Dispatcher/Progress.antt =====
-- What a round of internal/webhook/dispatcher.go delivers when the receiver takes every event.
use mathlib.Core.Option
use ficct_boutique_backend_g.Base.{
  ℕ, suc, ◌≤◌, ◌≡◌, ◌∙◌, refl, ap, Bool, true, false, ◌&&◌, ◌||◌, Option, none, some, List, [], ◌∷◌,
  ◌==◌, Bool-cases, inl, inr, arith, if◌then◌else◌, any_where, find_where, select_where, length,
  find_where-passes,
}
use ficct_boutique_backend_g.Models.{Uuid, WebhookStatus, WebhookEvent}
use ficct_boutique_backend_g.Store.{Db, Env, after}
use ficct_boutique_backend_g.OutboxRepo.{is_due}
use ficct_boutique_backend_g.Dispatcher.{Network, tick}
use ficct_boutique_backend_g.Dispatcher.Fetch.{due_rows, any-due_rows_all}
use ficct_boutique_backend_g.Dispatcher.Delivery.{
  accepted, event_at, settle_event, event_at-settled,
}
use ficct_boutique_backend_g.Dispatcher.Rounds.{settle_all, tick-ok}

abbrev pub is_delivered : WebhookStatus → Bool
is_delivered WebhookStatus.delivered = true
is_delivered _ = false

is_delivered-eq : (s : WebhookStatus) → is_delivered s ≡ true → s ≡ WebhookStatus.delivered
is_delivered-eq WebhookStatus.delivered h = refl
is_delivered-eq WebhookStatus.pending h = absurd (cc)
is_delivered-eq WebhookStatus.failed h = absurd (cc)

abbrev delivered_row : Option WebhookEvent → Bool
delivered_row none = false
delivered_row (some e) = is_delivered e.status

delivered_row-eq :
    (o : Option WebhookEvent)
    → delivered_row o ≡ true
    → Option.map (λ e. e.status) o ≡ some WebhookStatus.delivered
delivered_row-eq none h = absurd (cc)
delivered_row-eq (some e) h = ap some (is_delivered-eq e.status h)

-- There is a row.
abbrev present : Option WebhookEvent → Bool
present none = false
present (some e) = true

present-map :
    (f : WebhookEvent → WebhookEvent) (o : Option WebhookEvent)
    → present (Option.map f o) ≡ present o
present-map f none = refl
present-map f (some e) = refl

present_if_any :
    (p q : WebhookEvent → Bool) (rows : List WebhookEvent)
    → any_where (λ x. p x && q x) rows ≡ true
    → present (find_where p rows) ≡ true
present_if_any p q [] h = absurd (cc)
present_if_any p q (x ∷ xs) h = elim (Bool-cases (p x)) [
  | inl hit ↦ rw hit refl
  | inr miss ↦ rw miss (present_if_any p q xs (ground (arith, miss, h)))
]

module _ (net : Network) (clock : ℕ → Env) (max_retries : ℕ) where
  settle_event-delivers :
      (env : Env) (e row : WebhookEvent)
      → accepted (net.post e) ≡ true
      → net.executes e.id ≡ true
      → is_delivered (settle_event net env max_retries e row).status ≡ true
  settle_event-delivers env e row good runs = rw (good, runs) refl

  settled-delivers :
      (env : Env) (e : WebhookEvent) (id : Uuid) (o : Option WebhookEvent)
      → accepted (net.post e) ≡ true
      → net.executes e.id ≡ true
      → present o ≡ true
      → ((row : WebhookEvent) → o ≡ some row → (row.id == id) ≡ true)
      → ((e.id == id) || delivered_row o) ≡ true
      → delivered_row
          (Option.map (λ x. if x.id == e.id then settle_event net env max_retries e x else x) o)
        ≡ true
  settled-delivers env e id none good runs here at h = absurd (cc)
  settled-delivers env e id (some row) good runs here at h = elim (Bool-cases (row.id == e.id)) [
    | inl same ↦ rw same (settle_event-delivers env e row good runs)
    | inr other ↦ rw other (ground (arith, at row refl))
  ]

  -- After deliveries that all go well, the events among them are delivered.
  settle_all-delivers :
      (k : ℕ) (events : List WebhookEvent) (id : Uuid) (db : Db)
      → ((e : WebhookEvent) → accepted (net.post e) ≡ true)
      → ((i : Uuid) → net.executes i ≡ true)
      → present (event_at id db) ≡ true
      → (any_where (λ e. e.id == id) events || delivered_row (event_at id db)) ≡ true
      → delivered_row (event_at id (settle_all net clock max_retries k events db)) ≡ true
  settle_all-delivers k [] id db good runs here h = h
  settle_all-delivers k (e ∷ es) id db good runs here h =
      settle_all-delivers (suc k) es id _ good runs
        (ap present (event_at-settled net (clock k) max_retries e id db)
          ∙ (present-map _ (event_at id db) ∙ here))
        (elim (Bool-cases (any_where (λ x. x.id == id) es)) [
          | inl later ↦ rw later refl
          | inr never ↦ rw never (
              ap delivered_row (event_at-settled net (clock k) max_retries e id db)
              ∙ settled-delivers (clock k) e id (event_at id db) (good e) (runs e.id) here
                  (λ row at. (find_where-passes (λ x. x.id == id) db.outbox row at).0)
                  (ground arith))
        ])

  -- When the receiver takes every event, the database executes what it is sent and at most ten events
  -- are due, one round delivers each of them.
  pub tick_delivers :
      (id : Uuid) (db : Db)
      → ((e : WebhookEvent) → accepted (net.post e) ≡ true)
      → ((i : Uuid) → net.executes i ≡ true)
      → (clock 0).begins ≡ true
      → (clock 0).commits ≡ true
      → length (select_where (is_due (clock 0)) db.outbox) ≤ 10
      → any_where (λ x. (x.id == id) && is_due (clock 0) x) db.outbox ≡ true
      → Option.map (λ e. e.status) (event_at id (after (tick net clock max_retries db)))
        ≡ some WebhookStatus.delivered
  tick_delivers id db good runs begins commits few due = delivered_row-eq _ (
      ap (λ d. delivered_row (event_at id d)) (tick-ok net clock max_retries db begins commits)
      ∙ settle_all-delivers 1 (due_rows (clock 0) 10 db) id db good runs
          (present_if_any (λ x. x.id == id) (is_due (clock 0)) db.outbox due)
          (rw (any-due_rows_all (λ x. x.id == id) (clock 0) 10 db few) (rw due refl)))
