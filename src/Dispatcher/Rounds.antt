-- ===== src/Dispatcher/Rounds.antt =====
-- Rounds of the dispatcher: tick of internal/webhook/dispatcher.go.
use mathlib.Core.Option
use ficct_boutique_backend_g.Base.{
  ℕ, suc, ◌≤◌, ◌<◌, ◌≡◌, ◌⊎◌, ◌∙◌, refl, ap, true, false, ◌&&◌, none, some, List, [], ◌∷◌, ◌==◌,
  leb, Bool-cases, inl, inr, arith, if◌then◌else◌, any_where, leb, ◌≢◌, find_where-passes,
  Option-cases,
}
use ficct_boutique_backend_g.Models.{Uuid, WebhookStatus, WebhookEvent}
use ficct_boutique_backend_g.Store.{Db, Env, Outcome, ok, err, after}
use ficct_boutique_backend_g.Store.Laws.{in_transaction-err, >>-ok}
use ficct_boutique_backend_g.OutboxRepo.{fetch_due, is_due}
use ficct_boutique_backend_g.Dispatcher.{Network, deliver, deliver_all, deliver_fetched, tick}
use ficct_boutique_backend_g.Dispatcher.Fetch.{
  due_rows, fetch_due-eq-ok, fetch_due-ok, any-due_rows,
}
use ficct_boutique_backend_g.Dispatcher.Delivery.{
  event_at, settled, deliver-settled, event_at-settled,
}

-- The row of an event is not another event's.
untouched :
    (id : Uuid) (e : WebhookEvent) (db : Db)
    → (e.id == id) ≡ false
    → (f : WebhookEvent → WebhookEvent)
    → Option.map (λ x. if x.id == e.id then f x else x) (event_at id db) ≡ event_at id db
untouched id e db other f = elim (Option-cases (event_at id db)) [
  | inl gone ↦ rw gone refl
  | inr (row, h) ↦
      let hit = find_where-passes (λ x. x.id == id) db.outbox row h in rw h (ap some (ground arith))
]

module _ (net : Network) (clock : ℕ → Env) (max_retries : ℕ) where
  abbrev pub settle_all : ℕ → List WebhookEvent → Db → Db
  settle_all k [] db = db
  settle_all k (e ∷ es) db = settle_all (suc k) es (settled net (clock k) max_retries e db)

  deliver_all-settled :
      (k : ℕ) (events : List WebhookEvent) (db : Db)
      → deliver_all net clock max_retries k events db ≡ ok tt (settle_all k events db)
  unfolding deliver_all
  deliver_all-settled k [] db = refl
  deliver_all-settled k (e ∷ es) db =
      >>-ok (deliver net (clock k) max_retries e) (deliver_all net clock max_retries (suc k) es) db
        (deliver-settled net (clock k) max_retries e db)
      ∙ deliver_all-settled (suc k) es _

  -- A round reads nothing and changes nothing, or it settles the due events one by one.
  pub tick-settled :
      (db : Db)
      → (after (tick net clock max_retries db) ≡ db)
        ⊎ (after (tick net clock max_retries db) ≡ settle_all 1 (due_rows (clock 0) 10 db) db)
  unfolding tick fetch_due
  tick-settled db = go (fetch_due (clock 0) 10 db) refl
    where
      go :
          (o : Outcome (List WebhookEvent))
          → fetch_due (clock 0) 10 db ≡ o
          → (after (deliver_fetched net clock max_retries o) ≡ db)
            ⊎ (after (deliver_fetched net clock max_retries o)
                ≡ settle_all 1 (due_rows (clock 0) 10 db) db)
      go (ok events w) h =
          let read = fetch_due-eq-ok (clock 0) 10 events db w h in
          inr (
            ap after (deliver_all-settled 1 events w)
            ∙ (ap (λ es. settle_all 1 es w) read.0
                ∙ ap (settle_all 1 (due_rows (clock 0) 10 db)) read.1))
      go (err e w) h = elim (in_transaction-err (clock 0) _ db h) [
        | inl same ↦ inl same
        | inr (_, read, body) ↦ inl (cc)
      ]

  pub tick-ok :
      (db : Db)
      → (clock 0).begins ≡ true
      → (clock 0).commits ≡ true
      → after (tick net clock max_retries db) ≡ settle_all 1 (due_rows (clock 0) 10 db) db
  unfolding tick
  tick-ok db begins commits =
      ap (λ o. after (deliver_fetched net clock max_retries o))
        (fetch_due-ok (clock 0) 10 db begins commits)
      ∙ ap after (deliver_all-settled 1 (due_rows (clock 0) 10 db) db)

  -- Settling other events leaves an event alone.
  settle_all-frame :
      (k : ℕ) (events : List WebhookEvent) (id : Uuid) (db : Db)
      → any_where (λ e. e.id == id) events ≡ false
      → event_at id (settle_all k events db) ≡ event_at id db
  settle_all-frame k [] id db h = refl
  settle_all-frame k (e ∷ es) id db h = elim (Bool-cases (e.id == id)) [
    | inl same ↦ absurd (ground arith)
    | inr other ↦
        settle_all-frame (suc k) es id _ (ground arith)
        ∙ (event_at-settled net (clock k) max_retries e id db ∙ untouched id e db other _)
  ]

  -- A round touches only events that were pending and due when it began: an event that was
  -- delivered, had failed for good, or whose time had not come has the same row afterwards.
  pub tick_frame :
      (id : Uuid) (db : Db)
      → any_where (λ x. (x.id == id) && is_due (clock 0) x) db.outbox ≡ false
      → event_at id (after (tick net clock max_retries db)) ≡ event_at id db
  tick_frame id db h = elim (tick-settled db) [
    | inl same ↦ ap (event_at id) same
    | inr step ↦
        ap (event_at id) step
        ∙ settle_all-frame 1 _ id db (any-due_rows (λ x. x.id == id) (clock 0) 10 db h)
  ]

  -- What a row must be for the policy of the outbox to hold: a delivered event has its time and no
  -- error, a failed one has used up its attempts, and one that has been tried and is still pending
  -- has attempts left and the error of the last one.
  abbrev pub ConsistentAs : WebhookStatus → WebhookEvent → Type 0
  ConsistentAs WebhookStatus.pending e =
      (e.attempts ≡ 0) ⊎ ((e.attempts < max_retries) × (e.last_error ≢ none))
  ConsistentAs WebhookStatus.delivered e = (e.last_error ≡ none) × (e.delivered_at ≢ none)
  ConsistentAs WebhookStatus.failed e = (max_retries ≤ e.attempts) × (e.last_error ≢ none)

  abbrev pub IsConsistent : WebhookEvent → Type 0
  IsConsistent e = ConsistentAs e.status e
