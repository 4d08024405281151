-- ===== src/Dispatcher/Sending.antt =====
-- What the deliveries of one round of internal/webhook/dispatcher.go do to one event.
use mathlib.Core.Option
use ficct_boutique_backend_g.Base.{
  ℕ, suc, ◌+◌, ◌≡◌, ◌⊎◌, ◌∙◌, refl, sym, ap, subst, String, Bool, true, false, some, List, [], ◌∷◌,
  ◌==◌, leb, All, Bool-cases, inl, inr, arith, if◌then◌else◌, any_where, update_where,
  find_where-passes,
}
use ficct_boutique_backend_g.Models.{Uuid, WebhookStatus, WebhookEvent}
use ficct_boutique_backend_g.Store.{Db, Env}
use ficct_boutique_backend_g.Dispatcher.{Network}
use ficct_boutique_backend_g.Dispatcher.Delivery.{
  accepted, failure_text, is_recorded, event_at, settle, settle_if, settle_event, settled,
  settle_if-id, event_at-settled,
}
use ficct_boutique_backend_g.Dispatcher.Rounds.{settle_all}

-- The event has one row, which is this one.
abbrev pub IsOnly : Uuid → WebhookEvent → Db → Type 0
IsOnly id row db = (event_at id db ≡ some row) × All (λ x. (x.id == id) ≡ true → x ≡ row) db.outbox

-- What a delivery of `row` makes of it: delivered where the receiver takes it, and otherwise one
-- attempt more, the last of them a failure.
abbrev pub SentAs : ℕ → Bool → WebhookEvent → WebhookEvent → Type 0
SentAs max_retries true row next = next.status ≡ WebhookStatus.delivered
SentAs max_retries false row next =
    (next.attempts ≡ row.attempts + 1)
    × (next.status ≡ (
        if leb max_retries (row.attempts + 1) then WebhookStatus.failed else WebhookStatus.pending))

settle-SentAs :
    (net : Network) (env : Env) (max_retries : ℕ) (row cur : WebhookEvent) (good : Bool)
    (msg : String)
    → SentAs max_retries good row (settle net env max_retries (row.attempts + 1) good msg cur)
settle-SentAs net env max_retries row cur true msg = refl
settle-SentAs net env max_retries row cur false msg = (refl, refl)

-- The same of a row whose delivery is recorded.
settle_event-SentAs :
    (net : Network) (env : Env) (max_retries : ℕ) (row cur : WebhookEvent)
    → is_recorded net row ≡ true
    → SentAs max_retries (accepted (net.post row)) row (settle_event net env max_retries row cur)
settle_event-SentAs net env max_retries row cur kept =
    subst
      (λ b. SentAs max_retries (accepted (net.post row)) row (
        settle_if b net env max_retries (row.attempts + 1) (accepted (net.post row))
          (failure_text net (net.post row)) cur))
      (sym kept) (settle-SentAs net env max_retries row cur _ _)

module _ (net : Network) (max_retries : ℕ) where
  abbrev pub Sent : WebhookEvent → WebhookEvent → Type 0
  Sent row next = SentAs max_retries (accepted (net.post row)) row next

  update-IsOnly :
      (e : WebhookEvent) (id : Uuid) (f : WebhookEvent → WebhookEvent) (row : WebhookEvent)
      (rows : List WebhookEvent)
      → ((x : WebhookEvent) → (f x).id ≡ x.id)
      → All (λ x. (x.id == id) ≡ true → x ≡ row) rows
      → All
          (λ x. (x.id == id) ≡ true → x ≡ (if row.id == e.id then f row else row))
          (update_where (λ x. x.id == e.id) f rows)
  update-IsOnly e id f row [] keeps only = tt
  update-IsOnly e id f row (x ∷ rows) keeps only = elim (Bool-cases (x.id == e.id)) [
    | inl hit ↦ rw hit (
      (λ h.
          let x_is = only.0 (ap (λ i. i == id) (sym (keeps x)) ∙ h) in
          ap f x_is
          ∙ sym (
              ap (λ b. if b then f row else row)
                (ap (λ (y : WebhookEvent). y.id == e.id) (sym x_is) ∙ hit))),
      update-IsOnly e id f row rows keeps only.1,
    )
    | inr miss ↦ rw miss (
      (λ h.
          let x_is = only.0 h in
          x_is
          ∙ sym (
              ap (λ b. if b then f row else row)
                (ap (λ (y : WebhookEvent). y.id == e.id) (sym x_is) ∙ miss))),
      update-IsOnly e id f row rows keeps only.1,
    )
  ]

  settled-IsOnly :
      (env : Env) (e : WebhookEvent) (id : Uuid) (row : WebhookEvent) (db : Db)
      → IsOnly id row db
      → IsOnly id
          (if row.id == e.id then settle_event net env max_retries e row else row)
          (settled net env max_retries e db)
  settled-IsOnly env e id row db only = (
    event_at-settled net env max_retries e id db
        ∙ ap (Option.map (λ x. if x.id == e.id then settle_event net env max_retries e x else x))
            only.0,
    update-IsOnly e id (settle_event net env max_retries e) row db.outbox
        (λ x. settle_if-id net env max_retries (e.attempts + 1) _ _ _ x) only.1,
  )

  -- Deliveries of other events, and then of the event.
  pub settle_all-Sent :
      (clock : ℕ → Env) (k : ℕ) (events : List WebhookEvent) (id : Uuid) (row cur : WebhookEvent)
      (db : Db)
      → is_recorded net row ≡ true
      → IsOnly id cur db
      → All (λ x. (x.id == id) ≡ true → x ≡ row) events
      → (any_where (λ x. x.id == id) events ≡ true) ⊎ Sent row cur
      → (next : WebhookEvent) × IsOnly id next (settle_all net clock max_retries k events db)
        × Sent row next
  settle_all-Sent clock k [] id row cur db kept only snapshots (inl among) = absurd (cc)
  settle_all-Sent clock k [] id row cur db kept only snapshots (inr sent) = (cur, only, sent)
  settle_all-Sent clock k (e ∷ es) id row cur db kept only snapshots some_sent =
      elim (Bool-cases (e.id == id)) [
        | inl same ↦
            let e_is = snapshots.0 same in
            let here = find_where-passes (λ x. x.id == id) db.outbox cur only.0 in
            let hit : (cur.id == e.id) ≡ true = ground arith in
            settle_all-Sent clock (suc k) es id row (settle_event net (clock k) max_retries e cur) _
              kept
              (subst
                (λ b.
                  IsOnly id (if b then settle_event net (clock k) max_retries e cur else cur)
                    (settled net (clock k) max_retries e db))
                hit (settled-IsOnly (clock k) e id cur db only))
              snapshots.1
              (inr (
                subst (λ r. Sent row (settle_event net (clock k) max_retries r cur)) (sym e_is)
                  (settle_event-SentAs net (clock k) max_retries row cur kept)))
        | inr other ↦
            let here = find_where-passes (λ x. x.id == id) db.outbox cur only.0 in
            let miss : (cur.id == e.id) ≡ false = ground arith in
            settle_all-Sent clock (suc k) es id row cur _ kept
              (subst
                (λ b.
                  IsOnly id (if b then settle_event net (clock k) max_retries e cur else cur)
                    (settled net (clock k) max_retries e db))
                miss (settled-IsOnly (clock k) e id cur db only))
              snapshots.1 (rw other at some_sent)
      ]

  -- Deliveries of other events only.
  pub settle_all-other :
      (clock : ℕ → Env) (k : ℕ) (events : List WebhookEvent) (id : Uuid) (cur : WebhookEvent)
      (db : Db)
      → IsOnly id cur db
      → any_where (λ x. x.id == id) events ≡ false
      → IsOnly id cur (settle_all net clock max_retries k events db)
  settle_all-other clock k [] id cur db only none_of = only
  settle_all-other clock k (e ∷ es) id cur db only none_of =
      let here = find_where-passes (λ x. x.id == id) db.outbox cur only.0 in
      let miss : (cur.id == e.id) ≡ false = ground arith in
      settle_all-other clock (suc k) es id cur _
        (subst
          (λ b.
            IsOnly id (if b then settle_event net (clock k) max_retries e cur else cur)
              (settled net (clock k) max_retries e db))
          miss (settled-IsOnly (clock k) e id cur db only))
        (ground arith)
