-- ===== src/System/Reached.antt =====
-- The system of graph/schema.graphqls and the dispatcher: what its steps do to the table `inventory`.
use ficct_boutique_backend_g.Base.{String, Option, none, List, ℕ, true, false, ◌||◌}
use ficct_boutique_backend_g.Models.{Uuid}
use ficct_boutique_backend_g.Store.{Db, Env, Tx, Error, ◌>>◌}
use ficct_boutique_backend_g.Store.Keeps.{>>=-Keeps, fail_if-Keeps}
use ficct_boutique_backend_g.Authz.{Context, check, require_auth, require_admin, parse_or_fail}
use ficct_boutique_backend_g.InventoryRepo.Sound.{IsSound}
use ficct_boutique_backend_g.Text.{trim_space, is_blank}
use ficct_boutique_backend_g.PushSender.{ExpoMessage, Posted}
use ficct_boutique_backend_g.AuthService
use ficct_boutique_backend_g.CatalogRepo
use ficct_boutique_backend_g.Mutations.Selling.{create_sale_mutation}
use ficct_boutique_backend_g.Mutations.Stocking
use ficct_boutique_backend_g.Mutations.Registering.{subject_of}
use ficct_boutique_backend_g.Mutations.Pushing.{
  users_or_none, send_test_push_notification, send_push_campaign,
}
use ficct_boutique_backend_g.Mutations.Login
use ficct_boutique_backend_g.System.Catalog.{
  create_branch-Keeps, create_collection-Keeps, create_product-Keeps, create_variant-Keeps,
  set_variant_active-Keeps, update_product-Keeps, set_product_active-Keeps,
  replace_product_image-Keeps,
}
use ficct_boutique_backend_g.System.Selling.{create_sale-Keeps}
use ficct_boutique_backend_g.System.Devices.{send_campaign-Keeps, send_test-Keeps}
use ficct_boutique_backend_g.System.Accounts.{login-Keeps}
use ficct_boutique_backend_g.System.Rounds.{tick-Keeps}
use ficct_boutique_backend_g.System.Served.{
  KeepsSound, check-Keeps, confirm_sale_mutation-Keeps, upsert_inventory-Keeps,
  set_inventory_stock-Keeps, adjust_inventory_stock-Keeps, update_inventory_reorder_level-Keeps,
  parse-Keeps, register-Keeps, unregister-Keeps,
}
use ficct_boutique_backend_g.System.{
  Mutation, Site, run_mutation, Step, mutated, ticked, Reaches, stay, later, sender,
}

module _ {Json : Type 0} (S : Site) (env : Env) (post : ℕ → List (ExpoMessage Json) → Posted)
    (ctx : Context) where
  send_test-Served :
      (title body : String)
      → KeepsSound (send_test_push_notification S.parse (sender S env post) ctx title body)
  unfolding send_test_push_notification
  send_test-Served title body = check-Keeps (require_auth ctx) _ (
      >>=-Keeps IsSound (parse_or_fail S.parse (subject_of ctx)) _
        (parse-Keeps env ctx S.parse (subject_of ctx))
        λ uid.
          fail_if-Keeps IsSound (is_blank (trim_space title) || is_blank (trim_space body))
            Error.title_and_body_required _
            (send_test-Keeps IsSound env post S.push_endpoint uid (trim_space title)
              (trim_space body)))

  send_campaign-Served :
      (title body : String) (users : Option (List Uuid))
      → KeepsSound (send_push_campaign (sender S env post) ctx title body users)
  unfolding send_push_campaign
  send_campaign-Served title body users = check-Keeps (require_admin ctx) _ (
      fail_if-Keeps IsSound (is_blank (trim_space title) || is_blank (trim_space body))
        Error.title_and_body_required _
        (send_campaign-Keeps IsSound env post S.push_endpoint (users_or_none users)
          (trim_space title) (trim_space body) none))

  login-Served :
      (email password : String)
      → KeepsSound (Login.login S.cases S.argon S.jwt S.issuer env email password)
  unfolding Login.login
  login-Served email password =
      >>=-Keeps IsSound (AuthService.login S.cases S.argon S.jwt S.issuer env email password) _
        (login-Keeps IsSound S.cases S.argon S.jwt S.issuer env email password) λ res d q. q

  -- A mutation that asks for the role of an administrator first.
  admin : {A : Type 0} (m : Tx A) → KeepsSound m → KeepsSound (check (require_admin ctx) >> m)
  admin m k = check-Keeps (require_admin ctx) m k

  run_mutation-IsSound :
      (m : Mutation) (db : Db)
      → IsSound db.inventory
      → IsSound (run_mutation S env post ctx m db).inventory
  unfolding run_mutation Stocking.create_collection Stocking.create_product Stocking.update_product
      Stocking.create_variant Stocking.create_branch Stocking.deactivate_product
      Stocking.activate_product Stocking.replace_product_image Stocking.deactivate_variant
      Stocking.activate_variant create_sale_mutation
  run_mutation-IsSound (Mutation.login email password) = login-Served email password
  run_mutation-IsSound (Mutation.create_collection name description season) =
      admin _ (create_collection-Keeps IsSound env name description season)
  run_mutation-IsSound (Mutation.create_product args) =
      admin _ (create_product-Keeps IsSound S.floats env _)
  run_mutation-IsSound (Mutation.update_product id change) =
      admin _ (update_product-Keeps IsSound S.floats env id change)
  run_mutation-IsSound (Mutation.create_variant input) =
      admin _ (create_variant-Keeps IsSound S.floats env input)
  run_mutation-IsSound (Mutation.upsert_inventory variant branch quantity level) =
      upsert_inventory-Keeps env ctx variant branch quantity level
  run_mutation-IsSound (Mutation.create_branch input) =
      admin _ (create_branch-Keeps IsSound env input)
  run_mutation-IsSound (Mutation.create_sale args) =
      check-Keeps (require_auth ctx) _ (create_sale-Keeps IsSound S.floats env _)
  run_mutation-IsSound (Mutation.confirm_sale sale) =
      confirm_sale_mutation-Keeps S.parse env S.webhook_url ctx sale
  run_mutation-IsSound (Mutation.deactivate_product id) =
      admin _ (set_product_active-Keeps IsSound env id false)
  run_mutation-IsSound (Mutation.activate_product id) =
      admin _ (set_product_active-Keeps IsSound env id true)
  run_mutation-IsSound (Mutation.replace_product_image id doc) = admin _ (
      >>=-Keeps IsSound (CatalogRepo.replace_product_image env id doc) _
        (replace_product_image-Keeps IsSound env id doc) λ r d q. q)
  run_mutation-IsSound (Mutation.deactivate_variant id) =
      admin _ (set_variant_active-Keeps IsSound env id false)
  run_mutation-IsSound (Mutation.activate_variant id) =
      admin _ (set_variant_active-Keeps IsSound env id true)
  run_mutation-IsSound (Mutation.set_inventory_stock variant branch quantity) =
      set_inventory_stock-Keeps env ctx variant branch quantity
  run_mutation-IsSound (Mutation.adjust_inventory_stock variant branch delta) =
      adjust_inventory_stock-Keeps env ctx variant branch delta
  run_mutation-IsSound (Mutation.update_inventory_reorder_level variant branch level) =
      update_inventory_reorder_level-Keeps env ctx variant branch level
  run_mutation-IsSound (Mutation.register_push_token token platform device) =
      register-Keeps env ctx S.parse token platform device
  run_mutation-IsSound (Mutation.unregister_push_token token) =
      unregister-Keeps env ctx S.parse token
  run_mutation-IsSound (Mutation.send_test_push_notification title body) =
      send_test-Served title body
  run_mutation-IsSound (Mutation.send_push_campaign title body users) =
      send_campaign-Served title body users

Step-IsSound : (S : Site) {db w : Db} → Step S db w → IsSound db.inventory → IsSound w.inventory
Step-IsSound S (mutated env post ctx m db) p = run_mutation-IsSound S env post ctx m db p
Step-IsSound S (ticked net clock db) p = tick-Keeps IsSound net clock S.max_retries db p

-- Whatever mutations are sent, by whom, in whatever order, with whatever failures, and however the
-- rounds of the dispatcher fall between them: from a database whose inventory is in order, only
-- such databases are reached. No quantity is ever negative, and a variant has at most one row at a
-- branch.
pub reached-IsSound :
    (S : Site) (db w : Db) → IsSound db.inventory → Reaches S db w → IsSound w.inventory
reached-IsSound S db w p stay = p
reached-IsSound S db w p (later {v = v} r s) = Step-IsSound S s (reached-IsSound S db v p r)
