-- ===== src/Examples.antt =====
-- A small shop on which the theorems are applied.
pub mod Confirming
pub mod Delivering
pub mod Selling
pub mod Stocking
pub mod Pushing
pub mod Reading
pub mod Accounts
pub mod Joining
pub mod Limiting
pub mod Reporting
pub mod Ledgering
pub mod Serving
pub mod Migrating
use ficct_boutique_backend_g.Base.{ℕ, ◌+◌, true, false, none, some, List, [], ◌∷◌, ◌==◌, Bool, ◌*◌}
use ficct_boutique_backend_g.Base.Int.{ℤ, pos, negsuc, pos_part}
use ficct_boutique_backend_g.Float.{Float64Ops}
use ficct_boutique_backend_g.Base.{ltb}
use ficct_boutique_backend_g.Models.{
  User, Role, Customer, Branch, Product, ProductVariant, Inventory, Sale, SaleItem, SaleStatus,
  Order, WebhookEvent,
}
use ficct_boutique_backend_g.Store.{Db, Env}

-- Whole numbers in place of the floats: a model of the operations on values without cents.
abbrev pub whole : Float64Ops
whole = record {
  add = λ a b. a + b;
  mul = λ a b. a * b;
  of_int = pos_part;
  lt = ltb;
  numeric = λ x. some x;
}

-- Call number `k` draws the identifiers from 100 * k on.
abbrev pub env_at : ℕ → Env
env_at k = record {
  now = k;
  uuid = λ n. 100 * k + n;
  begins = true;
  commits = true;
  lost = false;
  date = "20260610";
  random_id = 70042 + k;
}

abbrev pub maria : User
maria = record {
  id = 1;
  email = "maria@ficct.bo";
  password_hash = "";
  full_name = "Maria Cliente";
  role = Role.customer;
  is_active = true;
  created_at = 0;
  updated_at = 0;
}

abbrev pub profile : Customer
profile = record {
  id = 2;
  user_id = some 1;
  full_name = "Maria Cliente";
  phone = none;
  document_id = none;
  address = none;
  created_at = 0;
  updated_at = 0;
}

abbrev pub centro : Branch
centro = record {
  id = 3;
  code = "SC-01";
  name = "Boutique Centro";
  address = "Av. Canoto 100";
  latitude = none;
  longitude = none;
  phone = none;
  is_active = true;
  created_at = 0;
  updated_at = 0;
}

abbrev pub blouse : Product
blouse = record {
  id = 4;
  collection_id = none;
  sku = "BLZ-001";
  name = "Blusa Seda Marfil";
  description = none;
  category = "blusas";
  base_price = 350;
  currency = "BOB";
  image_url = none;
  image_document_id = none;
  is_active = true;
  created_at = 0;
  updated_at = 0;
  image_replaced_at = none;
}

abbrev pub blouse_m : ProductVariant
blouse_m = record {
  id = 5;
  product_id = 4;
  sku = "BLZ-001-M";
  size = "M";
  color = "marfil";
  price_override = none;
  is_active = true;
  created_at = 0;
  updated_at = 0;
}

abbrev pub stock_row : Inventory
stock_row = record {
  id = 6;
  variant_id = 5;
  branch_id = 3;
  quantity = pos 10;
  reorder_level = pos 2;
  updated_at = 0;
}

abbrev pub draft : Sale
draft = record {
  id = 7;
  customer_id = some 2;
  branch_id = 3;
  cashier_id = none;
  status = SaleStatus.pending;
  subtotal = 1050;
  tax = 136;
  total = 1186;
  currency = "BOB";
  confirmed_at = none;
  created_at = 0;
  updated_at = 0;
}

abbrev pub line : SaleItem
line = record {
  id = 8;
  sale_id = 7;
  variant_id = 5;
  quantity = pos 3;
  unit_price = 350;
  line_total = 1050;
  created_at = 0;
}

abbrev pub shop : Db
shop = record {
  users = maria ∷ [];
  customers = profile ∷ [];
  branches = centro ∷ [];
  collections = [];
  products = blouse ∷ [];
  variants = blouse_m ∷ [];
  inventory = stock_row ∷ [];
  sales = draft ∷ [];
  sale_items = line ∷ [];
  orders = [];
  outbox = [];
  push_tokens = [];
}
