-- ===== src/Examples/Serving.antt =====
-- The shop of `Examples` served for a while: a confirmation, a correction of the stock, a round.
use ficct_boutique_backend_g.Base.{ℕ, some, List, [], ◌∷◌}
use ficct_boutique_backend_g.Base.Int.{pos, negsuc}
use ficct_boutique_backend_g.Models.{Role}
use ficct_boutique_backend_g.Store.{Db, after}
use ficct_boutique_backend_g.InventoryRepo.Sound.{IsSound}
use ficct_boutique_backend_g.PushSender.{ExpoMessage, Posted, post_failed}
use ficct_boutique_backend_g.Dispatcher.{tick}
use ficct_boutique_backend_g.System.{
  Mutation, Site, run_mutation, Reaches, stay, later, mutated, ticked,
}
use ficct_boutique_backend_g.System.Reached.{reached-IsSound}
use ficct_boutique_backend_g.Examples.{env_at, shop, whole}
use ficct_boutique_backend_g.Examples.Accounts.{cases, argon, jwt}
use ficct_boutique_backend_g.Examples.Confirming.{shop-IsSound}
use ficct_boutique_backend_g.Examples.Delivering.{down, clock}
use ficct_boutique_backend_g.Examples.Selling.{by_name, as_maria}

abbrev site : Site
site = record {
  floats = whole;
  cases = cases;
  argon = argon;
  jwt = jwt;
  issuer = record {
    key_id = "k";
    issuer = "ficct-go";
    audience = "ficct-angular" ∷ [];
    access_ttl = pos 900;
  };
  parse = by_name;
  webhook_url = "https://hook";
  push_endpoint = "https://exp.host";
  max_retries = 5;
}

abbrev nobody : ℕ → List (ExpoMessage (Unit {0})) → Posted
nobody k ms = post_failed "refused"

-- Maria confirms her sale.
abbrev bought : Db
bought = run_mutation site (env_at 1) nobody (some as_maria) (Mutation.confirm_sale 7) shop

-- Staff take twenty off a stock of seven.
abbrev corrected : Db
corrected =
    run_mutation site (env_at 2) nobody (some (record as_maria { role = Role.staff }))
      (Mutation.adjust_inventory_stock 5 3 (negsuc 19)) bought

abbrev sent : Db
sent = after (tick down clock 5 corrected)

reaches : Reaches site shop sent
reaches = later (later (later stay (mutated _ _ _ _ _)) (mutated _ _ _ _ _)) (ticked _ _ _)

reached-IsSound_example : IsSound sent.inventory
reached-IsSound_example = reached-IsSound site shop sent shop-IsSound reaches
