-- ===== src/Examples/Selling.antt =====
-- New sales at the shop of `Examples`, and who confirms them.
use ficct_boutique_backend_g.Base.{
  ap, ◌+◌, ◌*◌, if◌then◌else◌, ◌≡◌, refl, none, some, Option, List, [], ◌∷◌, String, str_eq,
}
use ficct_boutique_backend_g.Base.Int.{pos}
use ficct_boutique_backend_g.Models.{Uuid, Role, Sale, SaleItem, SaleStatus}
use ficct_boutique_backend_g.Float.{tax_rate}
use ficct_boutique_backend_g.Store.{Db, ok, after, in_transaction}
use ficct_boutique_backend_g.Authz.{Claims, require_auth, is_admin_or_staff, subject_uuid}
use ficct_boutique_backend_g.CatalogRepo.{find_variant, find_product}
use ficct_boutique_backend_g.SalesRepo.{
  ensure_customer_for_user, create_with_items, insert_sale, insert_sale_items, subtotal_from,
  owner_user_id,
}
use ficct_boutique_backend_g.SalesService.{
  CreateSaleInput, CreateSaleItemInput, create_sale, price_items, save_sale,
}
use ficct_boutique_backend_g.SalesService.Create.{Created, create_sale-Created}
use ficct_boutique_backend_g.SalesService.Buyer.{IsBoughtBy, create_sale-IsBoughtBy}
use ficct_boutique_backend_g.Mutations.Selling.{
  CreateSaleArgs, create_sale_mutation, confirm_sale_mutation, check_owner, order_answer,
}
use ficct_boutique_backend_g.Mutations.Ownership.{
  MayConfirm, create_sale_mutation-IsBoughtBy, confirm_sale_mutation-MayConfirm,
}
use ficct_boutique_backend_g.Examples.{whole, env_at, shop}
use ficct_boutique_backend_g.Examples.Confirming.{order_made, shop_after, confirms}

-- A shop that has sold nothing yet, and two blouses.
abbrev quiet : Db
quiet = record shop { sales = []; sale_items = [] }

abbrev asked : List CreateSaleItemInput
asked = record { variant_id = 5; quantity = pos 2 } ∷ []

abbrev input : CreateSaleInput
input = record {
  customer_id = none;
  customer_user_id = some 1;
  branch_id = 3;
  cashier_id = none;
  items = asked;
}

abbrev made : Sale
made = record {
  id = 201;
  customer_id = some 2;
  branch_id = 3;
  cashier_id = none;
  status = SaleStatus.pending;
  subtotal = 700;
  tax = 700 * tax_rate;
  total = 700 + 700 * tax_rate;
  currency = "BOB";
  confirmed_at = none;
  created_at = 2;
  updated_at = 2;
}

abbrev made_line : SaleItem
made_line = record {
  id = 202;
  sale_id = 201;
  variant_id = 5;
  quantity = pos 2;
  unit_price = 350;
  line_total = 700;
  created_at = 2;
}

abbrev sold_one : Db
sold_one = after (create_sale whole (env_at 2) input quiet)

creates : create_sale whole (env_at 2) input quiet ≡ ok (made, made_line ∷ []) sold_one
unfolding create_sale price_items find_variant find_product in_transaction save_sale
    ensure_customer_for_user create_with_items subtotal_from insert_sale insert_sale_items
creates = refl

create_sale-Created_example : Created whole (env_at 2) input quiet sold_one made (made_line ∷ [])
create_sale-Created_example =
    create_sale-Created whole (env_at 2) input quiet sold_one made (made_line ∷ []) creates

create_sale-IsBoughtBy_example : IsBoughtBy 1 made sold_one
create_sale-IsBoughtBy_example =
    create_sale-IsBoughtBy whole (env_at 2) 1 3 none asked quiet sold_one made (made_line ∷ [])
      creates

abbrev nothing : CreateSaleInput
nothing = record input { items = [] }

abbrev pub by_name : String → Option Uuid
by_name s = if str_eq s "1" then some 1 else none

abbrev pub as_maria : Claims
as_maria = record {
  role = Role.customer;
  branch_id = none;
  email = "maria@ficct.bo";
  subject = "1";
}

-- She names another customer; the sale is hers all the same.
abbrev args : CreateSaleArgs
args = record { customer_id = some 99; branch_id = 3; items = asked }

mutation_creates :
    create_sale_mutation by_name whole (env_at 2) (some as_maria) args quiet
    ≡ ok (made, made_line ∷ []) sold_one
unfolding create_sale_mutation is_admin_or_staff require_auth subject_uuid
mutation_creates = creates

create_sale_mutation-IsBoughtBy_example : IsBoughtBy 1 made sold_one × (made.cashier_id ≡ none)
unfolding is_admin_or_staff
create_sale_mutation-IsBoughtBy_example =
    create_sale_mutation-IsBoughtBy by_name whole (env_at 2) as_maria args 1 quiet sold_one made
      (made_line ∷ []) refl refl mutation_creates

mutation_confirms :
    confirm_sale_mutation by_name (env_at 1) "" (some as_maria) 7 shop ≡ ok order_made shop_after
unfolding confirm_sale_mutation check_owner is_admin_or_staff require_auth subject_uuid
    owner_user_id
mutation_confirms = ap order_answer confirms

confirm_sale_mutation-MayConfirm_example : MayConfirm by_name (some as_maria) 7 shop
confirm_sale_mutation-MayConfirm_example =
    confirm_sale_mutation-MayConfirm by_name (env_at 1) "" (some as_maria) 7 shop shop_after
      order_made mutation_confirms
