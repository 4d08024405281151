-- ===== src/System.antt =====
-- The program as one system: the mutations of graph/schema.graphqls, which graph/mutations.go serves one by
-- one, and the rounds of internal/webhook/dispatcher.go, on one database.
pub mod Catalog
pub mod Selling
pub mod Devices
pub mod Accounts
pub mod Rounds
pub mod Served
pub mod Reached
use ficct_boutique_backend_g.Base.{ℕ, String, Option, none, some, List}
use ficct_boutique_backend_g.Base.Int.{ℤ}
use ficct_boutique_backend_g.Models.{Uuid}
use ficct_boutique_backend_g.Float.{Float64Ops}
use ficct_boutique_backend_g.Store.{Db, Env, after}
use ficct_boutique_backend_g.Authz.{Context}
use ficct_boutique_backend_g.Password.{Argon}
use ficct_boutique_backend_g.Tokens.{Jwt, TokenIssuer}
use ficct_boutique_backend_g.UserRepo.{Cases}
use ficct_boutique_backend_g.BranchRepo.{NewBranch}
use ficct_boutique_backend_g.CatalogRepo.{NewVariant, ProductChange}
use ficct_boutique_backend_g.PushSender.{ExpoMessage, Posted, token_store}
use ficct_boutique_backend_g.Dispatcher.{Network, tick}
use ficct_boutique_backend_g.Mutations.Selling.{
  CreateSaleArgs, create_sale_mutation, confirm_sale_mutation,
}
use ficct_boutique_backend_g.Mutations.Stocking.{CreateProductArgs}
use ficct_boutique_backend_g.Mutations.Stocking
use ficct_boutique_backend_g.Mutations.Registering
use ficct_boutique_backend_g.Mutations.Pushing
use ficct_boutique_backend_g.Mutations.Pushing.{PushSender}
use ficct_boutique_backend_g.Mutations.Login

-- A mutation with its arguments, as the schema declares them.
pub data Mutation : Type 0 where
  login : String → String → Mutation
  create_collection : String → Option String → Option String → Mutation
  create_product : CreateProductArgs → Mutation
  update_product : Uuid → ProductChange → Mutation
  create_variant : NewVariant → Mutation
  upsert_inventory : Uuid → Uuid → ℤ → ℤ → Mutation
  create_branch : NewBranch → Mutation
  create_sale : CreateSaleArgs → Mutation
  confirm_sale : Uuid → Mutation
  deactivate_product activate_product : Uuid → Mutation
  replace_product_image : Uuid → Uuid → Mutation
  deactivate_variant activate_variant : Uuid → Mutation
  set_inventory_stock adjust_inventory_stock update_inventory_reorder_level :
      Uuid → Uuid → ℤ → Mutation
  register_push_token : String → String → Option String → Mutation
  unregister_push_token : String → Mutation
  send_test_push_notification : String → String → Mutation
  send_push_campaign : String → String → Option (List Uuid) → Mutation

-- What the server was started with: the libraries, the issuer of tokens, the target of the
-- webhooks, the endpoint of the push service, and the dispatcher's maximum of attempts.
pub record Site : Type 0 where
  pub floats : Float64Ops
  pub cases : Cases
  pub argon : Argon
  pub jwt : Jwt
  pub issuer : TokenIssuer
  pub parse : String → Option Uuid
  pub webhook_url : String
  pub push_endpoint : String
  pub max_retries : ℕ

module _ {Json : Type 0} (S : Site) (env : Env) (post : ℕ → List (ExpoMessage Json) → Posted) where
  abbrev pub sender : Option (PushSender Json)
  sender = some (record { endpoint = S.push_endpoint; store = token_store env; post = post })

  -- The database after a mutation, whether it answers or fails.
  unfoldable pub run_mutation : Context → Mutation → Db → Db
  run_mutation ctx (Mutation.login email password) db =
      after (Login.login S.cases S.argon S.jwt S.issuer env email password db)
  run_mutation ctx (Mutation.create_collection name description season) db =
      after (Stocking.create_collection env ctx name description season db)
  run_mutation ctx (Mutation.create_product args) db =
      after (Stocking.create_product S.floats env ctx args db)
  run_mutation ctx (Mutation.update_product id change) db =
      after (Stocking.update_product S.floats env ctx id change db)
  run_mutation ctx (Mutation.create_variant input) db =
      after (Stocking.create_variant S.floats env ctx input db)
  run_mutation ctx (Mutation.upsert_inventory variant branch quantity level) db =
      after (Stocking.upsert_inventory env ctx variant branch quantity level db)
  run_mutation ctx (Mutation.create_branch input) db =
      after (Stocking.create_branch env ctx input db)
  run_mutation ctx (Mutation.create_sale args) db =
      after (create_sale_mutation S.parse S.floats env ctx args db)
  run_mutation ctx (Mutation.confirm_sale sale) db =
      after (confirm_sale_mutation S.parse env S.webhook_url ctx sale db)
  run_mutation ctx (Mutation.deactivate_product id) db =
      after (Stocking.deactivate_product env ctx id db)
  run_mutation ctx (Mutation.activate_product id) db =
      after (Stocking.activate_product env ctx id db)
  run_mutation ctx (Mutation.replace_product_image id doc) db =
      after (Stocking.replace_product_image env ctx id doc db)
  run_mutation ctx (Mutation.deactivate_variant id) db =
      after (Stocking.deactivate_variant env ctx id db)
  run_mutation ctx (Mutation.activate_variant id) db =
      after (Stocking.activate_variant env ctx id db)
  run_mutation ctx (Mutation.set_inventory_stock variant branch quantity) db =
      after (Stocking.set_inventory_stock env ctx variant branch quantity db)
  run_mutation ctx (Mutation.adjust_inventory_stock variant branch delta) db =
      after (Stocking.adjust_inventory_stock env ctx variant branch delta db)
  run_mutation ctx (Mutation.update_inventory_reorder_level variant branch level) db =
      after (Stocking.update_inventory_reorder_level env ctx variant branch level db)
  run_mutation ctx (Mutation.register_push_token token platform device) db =
      after (Registering.register_push_token S.parse env ctx token platform device db)
  run_mutation ctx (Mutation.unregister_push_token token) db =
      after (Registering.unregister_push_token S.parse env ctx token db)
  run_mutation ctx (Mutation.send_test_push_notification title body) db =
      after (Pushing.send_test_push_notification S.parse sender ctx title body db)
  run_mutation ctx (Mutation.send_push_campaign title body users) db =
      after (Pushing.send_push_campaign sender ctx title body users db)

-- One step: a mutation that anybody sends, with the claims and the surroundings that it meets, or a
-- round of the dispatcher, whatever the receiver answers.
pub data Step (S : Site) : Db → Db → Type 1 where
  mutated :
      {Json : Type 0} (env : Env) (post : ℕ → List (ExpoMessage Json) → Posted) (ctx : Context)
      (m : Mutation) (db : Db)
      → Step S db (run_mutation S env post ctx m db)
  ticked :
      (net : Network) (clock : ℕ → Env) (db : Db)
      → Step S db (after (tick net clock S.max_retries db))

-- The databases that steps lead to.
pub data Reaches (S : Site) (db : Db) : Db → Type 1 where
  stay : Reaches S db db
  later : {v w : Db} → Reaches S db v → Step S v w → Reaches S db w
