-- ===== src/Dispatcher/Fetch.antt =====
-- The events of a round: FetchDue of internal/repository/outbox.go.
use ficct_boutique_backend_g.Base.{
  ℕ, ◌≤◌, ◌≡◌, refl, sym, subst, ap, Bool, true, false, List, ◌∙◌, not, ◌&&◌, leb, take, length,
  All, select_where, any_where, order_by, any-order_by, any-select_where, any-take, take-all,
  length-order_by, length-take_le, All-not_any, none_both,
}
use ficct_boutique_backend_g.Models.{WebhookEvent}
use ficct_boutique_backend_g.Store.{Db, Env, ok, in_transaction}
use ficct_boutique_backend_g.Store.Laws.{in_transaction-eq-ok}
use ficct_boutique_backend_g.OutboxRepo.{is_due, fetch_due}

-- The rows that a round reads.
abbrev pub due_rows : Env → ℕ → Db → List WebhookEvent
due_rows env limit db = take limit (
    order_by (λ x y. leb x.next_attempt_at y.next_attempt_at) (select_where (is_due env) db.outbox))

pub fetch_due-eq-ok :
    (env : Env) (limit : ℕ) (events : List WebhookEvent) (db w : Db)
    → fetch_due env limit db ≡ ok events w
    → (events ≡ due_rows env limit db) × (w ≡ db)
unfolding fetch_due
fetch_due-eq-ok env limit events db w e = let done = in_transaction-eq-ok env _ db e in (cc, cc)

pub fetch_due-ok :
    (env : Env) (limit : ℕ) (db : Db)
    → env.begins ≡ true
    → env.commits ≡ true
    → fetch_due env limit db ≡ ok (due_rows env limit db) db
unfolding fetch_due in_transaction
fetch_due-ok env limit db begins commits = rw begins (rw commits refl)

-- Where no more are due than are asked for, every one of them is read.
pub any-due_rows_all :
    (p : WebhookEvent → Bool) (env : Env) (limit : ℕ) (db : Db)
    → length (select_where (is_due env) db.outbox) ≤ limit
    → any_where p (due_rows env limit db) ≡ any_where (λ x. p x && is_due env x) db.outbox
any-due_rows_all p env limit db few =
    let all =
      order_by (λ x y. leb x.next_attempt_at y.next_attempt_at)
        (select_where (is_due env) db.outbox) in
    ap (any_where p) (take-all limit all (subst (λ n. n ≤ limit) (sym (length-order_by _ _)) few))
    ∙ (any-order_by p _ _ ∙ any-select_where p (is_due env) db.outbox)

pub any-due_rows :
    (p : WebhookEvent → Bool) (env : Env) (limit : ℕ) (db : Db)
    → any_where (λ x. p x && is_due env x) db.outbox ≡ false
    → any_where p (due_rows env limit db) ≡ false
any-due_rows p env limit db h =
    any-take p limit _ (any-order_by p _ _ ∙ (any-select_where p (is_due env) db.outbox ∙ h))

-- A round reads at most the number of events asked for, each of them pending with its time come.
-- Reading changes nothing: a second reader, even of another process, gets the same events, since
-- the row locks end with the transaction.
pub fetch_due_repeats :
    (env : Env) (limit : ℕ) (events : List WebhookEvent) (db w : Db)
    → fetch_due env limit db ≡ ok events w
    → (All (λ x. is_due env x ≡ true) events)
      × ((length events ≤ limit) × (fetch_due env limit w ≡ ok events w))
fetch_due_repeats env limit events db w e =
    let read = fetch_due-eq-ok env limit events db w e in
    (
      subst (All (λ x. is_due env x ≡ true)) (sym read.0) (
          All-not_any (is_due env) _ (
            any-due_rows (λ x. not (is_due env x)) env limit db
              (none_both (is_due env) db.outbox))),
      (
        subst (λ es. length es ≤ limit) (sym read.0) (length-take_le limit _),
        subst (λ d. fetch_due env limit d ≡ ok events w) (sym read.1) e,
      ),
    )
