-- ===== src/Examples/Stocking.antt =====
-- Stock and access at the shop of `Examples`.
use ficct_boutique_backend_g.Base.{refl, true, none, some, Option}
use ficct_boutique_backend_g.Base.Int.{pos}
use ficct_boutique_backend_g.CatalogRepo.{NewVariant, ProductChange}
use ficct_boutique_backend_g.Mutations.Stocking.{
  CreateProductArgs, upsert_inventory, set_inventory_stock, adjust_inventory_stock,
  update_inventory_reorder_level, create_collection, create_product, update_product, create_variant,
  deactivate_product, activate_product, replace_product_image, deactivate_variant, activate_variant,
  create_branch,
}
use ficct_boutique_backend_g.BranchRepo.{NewBranch}
use ficct_boutique_backend_g.Mutations.Pushing.{PushSender, send_push_campaign}
use ficct_boutique_backend_g.Mutations.Access.{IsRefused, inventory-IsRefused, catalog-IsRefused}
use ficct_boutique_backend_g.Examples.{whole, env_at}
use ficct_boutique_backend_g.Examples.Selling.{as_maria}

abbrev variant_row : NewVariant
variant_row = record {
  product_id = 4;
  sku = "BLZ-001-L";
  size = "L";
  color = "marfil";
  price_override = none;
}

inventory-IsRefused_example :
    IsRefused none (upsert_inventory (env_at 6) none 5 3 (pos 4) (pos 2))
    × IsRefused none (set_inventory_stock (env_at 6) none 5 3 (pos 4))
    × IsRefused none (adjust_inventory_stock (env_at 6) none 5 3 (pos 4))
    × IsRefused none (update_inventory_reorder_level (env_at 6) none 5 3 (pos 2))
inventory-IsRefused_example = inventory-IsRefused (env_at 6) none 5 3 (pos 4) (pos 2) refl refl

abbrev product_args : CreateProductArgs
product_args = record {
  collection_id = none;
  sku = "BLZ-002";
  name = "Blusa Lino";
  description = none;
  category = "blusas";
  base_price = 280;
  currency = none;
  image_url = none;
  image_document_id = none;
}

abbrev product_change : ProductChange
product_change = record {
  name = "Blusa Lino";
  description = none;
  category = "blusas";
  base_price = 290;
  image_url = none;
  image_document_id = none;
  is_active = true;
}

-- No push service.
abbrev no_sender : Option (PushSender (Unit {0}))
no_sender = none

abbrev norte : NewBranch
norte = record {
  code = "SC-02";
  name = "Boutique Norte";
  address = "Av. Banzer 200";
  latitude = none;
  longitude = none;
  phone = none;
}

catalog-IsRefused_example :
    IsRefused (some as_maria) (create_collection (env_at 6) (some as_maria) "Verano" none none)
    × IsRefused (some as_maria) (create_product whole (env_at 6) (some as_maria) product_args)
    × IsRefused (some as_maria) (update_product whole (env_at 6) (some as_maria) 4 product_change)
    × IsRefused (some as_maria) (create_variant whole (env_at 6) (some as_maria) variant_row)
    × IsRefused (some as_maria) (deactivate_product (env_at 6) (some as_maria) 4)
    × IsRefused (some as_maria) (activate_product (env_at 6) (some as_maria) 4)
    × IsRefused (some as_maria) (replace_product_image (env_at 6) (some as_maria) 4 11)
    × IsRefused (some as_maria) (deactivate_variant (env_at 6) (some as_maria) 4)
    × IsRefused (some as_maria) (activate_variant (env_at 6) (some as_maria) 4)
    × IsRefused
        (some as_maria)
        (send_push_campaign no_sender (some as_maria) "Oferta" "Blusas" none)
    × IsRefused (some as_maria) (create_branch (env_at 6) (some as_maria) norte)
catalog-IsRefused_example =
    catalog-IsRefused whole (env_at 6) (some as_maria) 4 11 "Verano" none none product_args
      product_change variant_row no_sender "Oferta" "Blusas" none norte refl
