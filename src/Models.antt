-- ===== src/Models.antt =====
-- The rows of the store: internal/models/models.go, with the columns of migrations/*.up.sql.
-- An identifier (uuid.UUID) and a time are numbers; a float64 is its bit pattern; a *T is an
-- Option.
use ficct_boutique_backend_g.Base.{ℕ, String, Bool, true, false, Option, List}
use ficct_boutique_backend_g.Base.Int.{ℤ}

abbrev pub Uuid : Type 0
Uuid = ℕ

abbrev pub Timestamp : Type 0
Timestamp = ℕ

-- The bit pattern of a float64.
abbrev pub Float64 : Type 0
Float64 = ℕ

pub data Role : Type 0 where
  admin staff customer system : Role

-- `==` on roles.
abbrev pub role_eq : Role → Role → Bool
role_eq admin admin = true
role_eq staff staff = true
role_eq customer customer = true
role_eq system system = true
role_eq _ _ = false

pub record User : Type 0 where
  pub id : Uuid
  pub email : String
  pub password_hash : String
  pub full_name : String
  pub role : Role
  pub is_active : Bool
  pub created_at : Timestamp
  pub updated_at : Timestamp

pub record Customer : Type 0 where
  pub id : Uuid
  pub user_id : Option Uuid
  pub full_name : String
  pub phone : Option String
  pub document_id : Option String
  pub address : Option String
  pub created_at : Timestamp
  pub updated_at : Timestamp

pub record Branch : Type 0 where
  pub id : Uuid
  pub code : String
  pub name : String
  pub address : String
  pub latitude : Option Float64
  pub longitude : Option Float64
  pub phone : Option String
  pub is_active : Bool
  pub created_at : Timestamp
  pub updated_at : Timestamp

pub record Collection : Type 0 where
  pub id : Uuid
  pub name : String
  pub description : Option String
  pub season : Option String
  pub is_active : Bool
  pub created_at : Timestamp
  pub updated_at : Timestamp

-- The last column is in the table alone: no query reads it into the struct.
pub record Product : Type 0 where
  pub id : Uuid
  pub collection_id : Option Uuid
  pub sku : String
  pub name : String
  pub description : Option String
  pub category : String
  pub base_price : Float64
  pub currency : String
  pub image_url : Option String
  pub image_document_id : Option Uuid
  pub is_active : Bool
  pub created_at : Timestamp
  pub updated_at : Timestamp
  pub image_replaced_at : Option Timestamp

pub record ProductVariant : Type 0 where
  pub id : Uuid
  pub product_id : Uuid
  pub sku : String
  pub size : String
  pub color : String
  pub price_override : Option Float64
  pub is_active : Bool
  pub created_at : Timestamp
  pub updated_at : Timestamp

pub record Inventory : Type 0 where
  pub id : Uuid
  pub variant_id : Uuid
  pub branch_id : Uuid
  pub quantity : ℤ
  pub reorder_level : ℤ
  pub updated_at : Timestamp

pub data SaleStatus : Type 0 where
  pending confirmed cancelled : SaleStatus

abbrev pub is_pending : SaleStatus → Bool
is_pending pending = true
is_pending _ = false

pub record Sale : Type 0 where
  pub id : Uuid
  pub customer_id : Option Uuid
  pub branch_id : Uuid
  pub cashier_id : Option Uuid
  pub status : SaleStatus
  pub subtotal : Float64
  pub tax : Float64
  pub total : Float64
  pub currency : String
  pub confirmed_at : Option Timestamp
  pub created_at : Timestamp
  pub updated_at : Timestamp

pub record SaleItem : Type 0 where
  pub id : Uuid
  pub sale_id : Uuid
  pub variant_id : Uuid
  pub quantity : ℤ
  pub unit_price : Float64
  pub line_total : Float64
  pub created_at : Timestamp

pub data OrderStatus : Type 0 where
  placed preparing ready delivered cancelled : OrderStatus

pub record Order : Type 0 where
  pub id : Uuid
  pub sale_id : Uuid
  pub code : String
  pub status : OrderStatus
  pub notes : Option String
  pub created_at : Timestamp
  pub updated_at : Timestamp

pub data PushPlatform : Type 0 where
  ios android web : PushPlatform

pub record PushToken : Type 0 where
  pub id : Uuid
  pub user_id : Uuid
  pub token : String
  pub platform : PushPlatform
  pub device_id : Option String
  pub is_active : Bool
  pub last_seen_at : Timestamp
  pub created_at : Timestamp
  pub updated_at : Timestamp

-- The customer section of the payload of `sale.confirmed`.
pub record SaleConfirmedCustomerPayload : Type 0 where
  pub id : Option Uuid
  pub name : String
  pub email : String

-- The body of the webhook, before json.Marshal turns it into text.
pub record SaleConfirmedWebhookPayload : Type 0 where
  pub event : String
  pub sale_id : Uuid
  pub order_id : Uuid
  pub order_code : String
  pub branch_id : Uuid
  pub total : Float64
  pub currency : String
  pub confirmed_at : Option Timestamp
  pub items : List SaleItem
  pub customer : SaleConfirmedCustomerPayload

-- The three values that the CHECK on webhook_outbox.status admits.
pub data WebhookStatus : Type 0 where
  pending delivered failed : WebhookStatus

pub record WebhookEvent : Type 0 where
  pub id : Uuid
  pub event_type : String
  pub aggregate_id : Uuid
  pub payload : SaleConfirmedWebhookPayload
  pub target_url : String
  pub status : WebhookStatus
  pub attempts : ℕ
  pub last_error : Option String
  pub next_attempt_at : Timestamp
  pub delivered_at : Option Timestamp
  pub created_at : Timestamp
