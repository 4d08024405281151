-- ===== src/Dispatcher/Retries.antt =====
-- How often the dispatcher of internal/webhook/dispatcher.go sends an event, over all rounds.
use ficct_boutique_backend_g.Base.{
  ℕ, suc, ◌+◌, ◌≤◌, ◌<◌, ◌≡◌, ◌⊎◌, ◌∙◌, refl, sym, ap, subst, Bool, true, false, ◌&&◌, List, [],
  ◌∷◌, ◌==◌, leb, All, Bool-cases, inl, inr, arith, if◌then◌else◌, any_where, All-select_where,
  All-take, order_by-All, find_where-passes, ==_iff,
}
use ficct_boutique_backend_g.Models.{Uuid, WebhookStatus, WebhookEvent}
use ficct_boutique_backend_g.Store.{Db, Env, after, in_transaction}
use ficct_boutique_backend_g.OutboxRepo.{is_waiting, is_due, fetch_due}
use ficct_boutique_backend_g.Dispatcher.{Network, tick}
use ficct_boutique_backend_g.Dispatcher.Fetch.{due_rows, any-due_rows}
use ficct_boutique_backend_g.Dispatcher.Delivery.{accepted, is_recorded}
use ficct_boutique_backend_g.Dispatcher.Rounds.{tick-ok}
use ficct_boutique_backend_g.Dispatcher.Sending.{
  IsOnly, SentAs, Sent, settle_all-Sent, settle_all-other,
}

tick-fails :
    (net : Network) (clock : ℕ → Env) (max_retries : ℕ) (db : Db)
    → ((clock 0).begins && (clock 0).commits) ≡ false
    → after (tick net clock max_retries db) ≡ db
unfolding tick fetch_due in_transaction
tick-fails net clock max_retries db h = elim (Bool-cases (clock 0).begins) [
  | inr not_begun ↦ rw not_begun refl
  | inl begun ↦ rw begun (rw (no_commit begun) (same (clock 0).lost))
]
  where
    same : (b : Bool) → (if b then db else db) ≡ db
    same true = refl
    same false = refl

    no_commit : (clock 0).begins ≡ true → (clock 0).commits ≡ false
    no_commit begun = rw begun at h

-- The events that a round reads are rows of the table that are due.
due_rows-All :
    (P : WebhookEvent → Type 0) (env : Env) (limit : ℕ) (db : Db)
    → All P db.outbox
    → All P (due_rows env limit db)
due_rows-All P env limit db h = All-take P limit _ (
    order_by-All P (λ x y. leb x.next_attempt_at y.next_attempt_at) _
      (All-select_where P (is_due env) db.outbox h))

is_waiting-eq : (s : WebhookStatus) → is_waiting s ≡ true → s ≡ WebhookStatus.pending
is_waiting-eq WebhookStatus.pending h = refl
is_waiting-eq WebhookStatus.delivered h = absurd (cc)
is_waiting-eq WebhookStatus.failed h = absurd (cc)

-- A row that is not pending is not due.
not_due :
    (env : Env) (id : Uuid) (row : WebhookEvent) (rows : List WebhookEvent)
    → All (λ x. (x.id == id) ≡ true → x ≡ row) rows
    → is_waiting row.status ≡ false
    → any_where (λ x. (x.id == id) && is_due env x) rows ≡ false
not_due env id row [] only done = refl
not_due env id row (x ∷ rows) only done = elim (Bool-cases (x.id == id)) [
  | inr other ↦ rw other (not_due env id row rows only.1 done)
  | inl same ↦
      let status = ap (λ (e : WebhookEvent). is_waiting e.status) (only.0 same) ∙ done in
      rw (same, status) (not_due env id row rows only.1 done)
]

-- A round: who receives, and its times.
abbrev pub Round : Type 0
Round = Network × (ℕ → Env)

module _ (max_retries : ℕ) (id : Uuid) where
  -- The database after some rounds.
  abbrev pub run : List Round → Db → Db
  run [] db = db
  run ((net, clock) ∷ rounds) db = run rounds (after (tick net clock max_retries db))

  -- The round reads the outbox, and the event is among those that it reads and sends.
  abbrev pub sends : (ℕ → Env) → Db → Bool
  sends clock db =
      ((clock 0).begins && (clock 0).commits)
      && any_where (λ e. e.id == id) (due_rows (clock 0) 10 db)

  -- How many of the rounds send the event.
  abbrev pub sent : List Round → Db → ℕ
  sent [] db = 0
  sent ((net, clock) ∷ rounds) db =
      let rest = sent rounds (after (tick net clock max_retries db)) in
      if sends clock db then suc rest else rest

  -- Whatever the outcome of a delivery of the event is, it is recorded.
  abbrev pub Records : Network → Type 0
  Records net = (e : WebhookEvent) → e.id ≡ id → is_recorded net e ≡ true

  round-sends :
      (net : Network) (clock : ℕ → Env) (row : WebhookEvent) (db : Db)
      → Records net
      → IsOnly id row db
      → sends clock db ≡ true
      → (next : WebhookEvent) × IsOnly id next (after (tick net clock max_retries db))
        × Sent net max_retries row next
  round-sends net clock row db records only h =
      let here = find_where-passes (λ x. x.id == id) db.outbox row only.0 in
      let kept = records row ((==_iff row.id id).0 here.0) in
      subst (λ w. (next : WebhookEvent) × IsOnly id next w × Sent net max_retries row next)
        (sym (tick-ok net clock max_retries db (ground arith) (ground arith)))
        (settle_all-Sent net max_retries clock 1 (due_rows (clock 0) 10 db) id row row db kept only
          (due_rows-All _ (clock 0) 10 db only.1) (inl (ground arith)))

  round-other :
      (net : Network) (clock : ℕ → Env) (row : WebhookEvent) (db : Db)
      → IsOnly id row db
      → sends clock db ≡ false
      → IsOnly id row (after (tick net clock max_retries db))
  round-other net clock row db only h = elim (Bool-cases ((clock 0).begins && (clock 0).commits)) [
    | inr failed ↦ subst (IsOnly id row) (sym (tick-fails net clock max_retries db failed)) only
    | inl both ↦
        subst (IsOnly id row) (sym (tick-ok net clock max_retries db (ground arith) (ground arith)))
          (settle_all-other net max_retries clock 1 (due_rows (clock 0) 10 db) id row db only
            (ground arith))
  ]

  -- An event that is not pending stays as it is.
  at_rest :
      (rounds : List Round) (row : WebhookEvent) (db : Db)
      → IsOnly id row db
      → is_waiting row.status ≡ false
      → (sent rounds db ≡ 0) × IsOnly id row (run rounds db)
  at_rest [] row db only done = (refl, only)
  at_rest ((net, clock) ∷ rounds) row db only done =
      let quiet : sends clock db ≡ false =
        rw
          (any-due_rows (λ e. e.id == id) (clock 0) 10 db
            (not_due (clock 0) id row db.outbox only.1 done))
          (ground arith) in
      let (rest, still) =
        at_rest rounds row (after (tick net clock max_retries db))
          (round-other net clock row db only quiet) done in
      (rw quiet rest, still)

  -- After it was sent `n` times in all, an event is pending with attempts left, delivered, or has
  -- failed with all attempts used.
  abbrev pub IsOutcome : ℕ → WebhookEvent → Type 0
  IsOutcome n e =
      ((e.status ≡ WebhookStatus.pending) × (e.attempts ≡ n) × (n < max_retries))
      ⊎ ((e.status ≡ WebhookStatus.delivered)
          ⊎ ((e.status ≡ WebhookStatus.failed) × (e.attempts ≡ n) × (n ≡ max_retries)))

  abbrev NextOf : List Round → Db → WebhookEvent → Type 0
  NextOf rounds db row =
      (last : WebhookEvent) × IsOnly id last (run rounds db)
      × (row.attempts + sent rounds db ≤ max_retries)
      × IsOutcome (row.attempts + sent rounds db) last

  -- One delivery, and what the later rounds do.
  after_sending :
      (net : Network) (rounds : List Round) (row next : WebhookEvent) (w : Db)
      → row.attempts < max_retries
      → IsOnly id next w
      → Sent net max_retries row next
      → (is_waiting next.status ≡ true → next.attempts < max_retries → NextOf rounds w next)
      → (last : WebhookEvent) × IsOnly id last (run rounds w)
        × (row.attempts + suc (sent rounds w) ≤ max_retries)
        × IsOutcome (row.attempts + suc (sent rounds w)) last
  after_sending net rounds row next w more only was_sent later =
      ending (accepted (net.post row)) was_sent
    where
      n : ℕ
      n = sent rounds w

      ended : is_waiting next.status ≡ false → (n ≡ 0) × IsOnly id next (run rounds w)
      ended done = at_rest rounds next w only done

      ending :
          (good : Bool)
          → SentAs max_retries good row next
          → (last : WebhookEvent) × IsOnly id last (run rounds w)
            × (row.attempts + suc n ≤ max_retries)
            × IsOutcome (row.attempts + suc n) last
      ending true delivered =
          let (none_later, still) = ended (rw delivered refl) in
          (next, still, omega (arith, none_later, more), inr (inl delivered))
      ending false (attempts, status) = elim (Bool-cases (leb max_retries (row.attempts + 1))) [
        | inl used_up ↦
            let failed : next.status ≡ WebhookStatus.failed = rw used_up at status in
            let (none_later, still) = ended (rw failed refl) in
            (
              next,
              still,
              omega (arith, none_later, more),
              inr (
                  inr (
                    failed,
                    omega (arith, attempts, none_later),
                    ground (arith, none_later, more, used_up),
                  )),
            )
        | inr left ↦
            let pending : next.status ≡ WebhookStatus.pending = rw left at status in
            let (last, only', le, outcome) =
              later (rw pending refl) (ground (arith, attempts, left)) in
            let same : next.attempts + n ≡ row.attempts + suc n = omega (arith, attempts) in
            (
              last,
              only',
              subst (λ m. m ≤ max_retries) same le,
              subst (λ m. IsOutcome m last) same outcome,
            )
      ]

  -- Where the database records the outcome of each delivery of a pending event that has attempts left
  -- and is the only row with its identifier, it is sent at most as often as it has attempts left,
  -- however many rounds there are and at whatever times, be it taken or refused. It ends delivered, or failed after exactly as many attempts as are allowed, or
  -- it is still pending, with the attempts that were made counted.
  pub retries_end :
      (rounds : List Round) (row : WebhookEvent) (db : Db)
      → All (λ r. Records r.0) rounds
      → IsOnly id row db
      → row.status ≡ WebhookStatus.pending
      → row.attempts < max_retries
      → (last : WebhookEvent) × IsOnly id last (run rounds db)
        × (row.attempts + sent rounds db ≤ max_retries)
        × IsOutcome (row.attempts + sent rounds db) last
  retries_end [] row db records only pending more =
      (row, only, omega (arith, more), inl (pending, omega arith, omega (arith, more)))
  retries_end ((net, clock) ∷ rounds) row db records only pending more =
      elim (Bool-cases (sends clock db)) [
        | inr quiet ↦ rw quiet (
            retries_end rounds row (after (tick net clock max_retries db)) records.1
              (round-other net clock row db only quiet) pending more)
        | inl sending ↦
            let (next, only', was_sent) = round-sends net clock row db records.0 only sending in
            rw sending (
              after_sending net rounds row next (after (tick net clock max_retries db)) more only'
                was_sent
                (λ waiting less.
                  retries_end rounds next (after (tick net clock max_retries db)) records.1 only'
                    (is_waiting-eq next.status waiting) less))
      ]
