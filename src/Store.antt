-- ===== src/Store.antt =====
-- The database as the repositories see it: its tables, what a statement can answer, and
-- transactions (pgx's Begin, Commit and the deferred Rollback).
pub mod Laws
pub mod Atomic
pub mod Keeps
use ficct_boutique_backend_g.Base.{
  take, drop, ℕ, String, Bool, Option, none, some, List, if◌then◌else◌,
}
use ficct_boutique_backend_g.Base.Int.{ℤ, pos, pos_part, ltb_ℤ}
use ficct_boutique_backend_g.Models.{
  Uuid, Timestamp, User, Customer, Branch, Collection, Product, ProductVariant, Inventory, Sale,
  SaleItem, Order, PushToken, WebhookEvent,
}

pub record Db : Type 0 where
  pub users : List User
  pub customers : List Customer
  pub branches : List Branch
  pub collections : List Collection
  pub products : List Product
  pub variants : List ProductVariant
  pub inventory : List Inventory
  pub sales : List Sale
  pub sale_items : List SaleItem
  pub orders : List Order
  pub outbox : List WebhookEvent
  pub push_tokens : List PushToken

-- The errors of the repositories, services and resolvers. The last three wrap another one, as
-- fmt.Errorf does with %w.
pub data Error : Type 0 where
  -- PostgreSQL and pgx.
  no_rows unique_violation foreign_key_violation check_violation out_of_range : Error
  negative_limit negative_offset : Error
  begin_failed commit_failed not_executed invalid_text : Error
  -- internal/repository.
  not_found insufficient_stock : Error
  -- internal/service.
  empty_sale_items sale_not_pending invalid_input : Error
  push_endpoint_not_configured : Error
  invalid_credentials inactive_user email_exists : Error
  -- internal/auth.
  password_not_hashed password_not_verified token_not_signed : Error
  -- graph.
  unauthenticated forbidden invalid_uuid sale_not_in_pending_status : Error
  negative_quantity negative_reorder_level : Error
  token_required unknown_platform title_and_body_required push_sender_not_configured : Error
  of_variant of_product_for_variant of_decrement : Uuid → Error → Error

-- What a call gives back, with the database as the call leaves it.
pub data Outcome (A : Type 0) : Type 0 where
  ok : A → Db → Outcome A
  err : Error → Db → Outcome A

abbrev pub Tx : Type 0 → Type 0
Tx A = Db → Outcome A

abbrev pub pure : {A : Type 0} → A → Tx A
pure a db = ok a db

abbrev pub fail : {A : Type 0} → Error → Tx A
fail e db = err e db

-- `if err != nil { return …, err }` after each call.
infixl 5 ◌>>=◌ ◌>>◌
abbrev pub ◌>>=◌ : {A B : Type 0} → Tx A → (A → Tx B) → Tx B
◌>>=◌ m f db = elim (m db) [ ok a w ↦ f a w | err e w ↦ err e w ]

abbrev pub ◌>>◌ : {A B : Type 0} → Tx A → Tx B → Tx B
m >> k = m >>= λ _. k

abbrev pub gets : {A : Type 0} → (Db → A) → Tx A
gets f db = ok (f db) db

abbrev pub fail_if : Bool → Error → Tx (Unit {0})
fail_if b e db = if b then err e db else ok tt db

-- LIMIT and OFFSET, which PostgreSQL refuses where they are negative.
abbrev pub check_page : ℤ → ℤ → Tx (Unit {0})
check_page limit offset =
    fail_if (ltb_ℤ limit (pos 0)) Error.negative_limit
    >> fail_if (ltb_ℤ offset (pos 0)) Error.negative_offset

abbrev pub page {ℓ} : {A : Type ℓ} → ℤ → ℤ → List A → List A
page limit offset rows = take (pos_part limit) (drop (pos_part offset) rows)

-- A row that must be there.
abbrev pub or_fail : {A : Type 0} → Error → Option A → Tx A
or_fail e none db = err e db
or_fail e (some a) db = ok a db

-- fmt.Errorf("…: %w", err).
abbrev pub wrap : {A : Type 0} → (Error → Error) → Tx A → Tx A
wrap w m db = elim (m db) [ ok a d ↦ ok a d | err e d ↦ err (w e) d ]

-- What the surroundings of one call decide: the time that NOW() shows in its transaction, the
-- identifiers that gen_random_uuid() draws, numbered in the order of use, whether a transaction
-- can be begun and committed, whether a commit that is answered with an error has taken place all
-- the same (`lost`), and the date and the random number that an order's code is made of.
pub record Env : Type 0 where
  pub now : Timestamp
  pub uuid : ℕ → Uuid
  pub begins : Bool
  pub commits : Bool
  pub lost : Bool
  pub date : String
  pub random_id : ℕ

-- The end of a transaction that began at `db`: a commit, or the deferred Rollback, which puts the
-- database back to where it was. Where the answer to the commit is lost, it may have taken place.
abbrev pub finish : {A : Type 0} → Bool → Bool → Db → Outcome A → Outcome A
finish commits lost db (ok a w) =
    if commits then ok a w else err Error.commit_failed (if lost then w else db)
finish commits lost db (err e w) = err e db

unfoldable pub in_transaction : {A : Type 0} → Env → Tx A → Tx A
in_transaction env body db =
    if env.begins then finish env.commits env.lost db (body db) else err Error.begin_failed db

-- A read that is sent to the pool, not in the transaction: it sees the database as it is committed,
-- and not what the transaction has written.
abbrev pub read_on_pool : {A : Type 0} → Tx A → Db → Tx A
read_on_pool m committed db = elim (m committed) [ ok a w ↦ ok a db | err e w ↦ err e db ]

-- The database after a call.
abbrev pub after : {A : Type 0} → Outcome A → Db
after (ok a w) = w
after (err e w) = w

-- The call went well.
abbrev pub IsOk : {A : Type 0} → Outcome A → Type 0
IsOk (ok a w) = Unit
IsOk (err e w) = ⊥
