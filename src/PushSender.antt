-- ===== src/PushSender.antt =====
-- internal/service/push_sender.go: notifications to the devices of users, over the Expo Push API.
pub mod Chunks
pub mod Accounts
use ficct_boutique_backend_g.Base.{
  ℕ, suc, zero, ◌+◌, Bool, true, false, String, Option, none, some, List, [], ◌∷◌, ◌++◌, map,
  length, ◌&&◌, if◌then◌else◌, str_eq, insert_row,
}
use ficct_boutique_backend_g.Base.Int.{pos}
use ficct_boutique_backend_g.Models.{Uuid, PushToken}
use ficct_boutique_backend_g.Store.{
  Db, Error, Tx, Env, Outcome, ok, err, pure, ◌>>=◌, ◌>>◌, fail_if,
}
use ficct_boutique_backend_g.PushTokenRepo
use Chunks.{chunk_strings}

-- The part of the repository that the sender uses.
pub record PushTokenStore : Type 0 where
  pub list_all_active : Tx (List PushToken)
  pub list_active_by_user : Uuid → Tx (List PushToken)
  pub list_active_for_users : List Uuid → Tx (List PushToken)
  pub deactivate_by_token : String → Tx (Unit {0})

-- `var _ PushTokenStore = (*repository.PushTokenRepo)(nil)`
abbrev pub token_store : Env → PushTokenStore
token_store env = record {
  list_all_active = PushTokenRepo.list_all_active;
  list_active_by_user = PushTokenRepo.list_active_by_user;
  list_active_for_users = PushTokenRepo.list_active_for_users;
  deactivate_by_token = PushTokenRepo.deactivate_by_token env;
}

-- One message; `json_data` is a JSON object, of a type that the library of the caller gives.
pub record ExpoMessage (Json : Type 0) : Type 0 where
  pub to : String
  pub title : String
  pub body : String
  pub sound : String
  pub json_data : Option Json
  pub priority : String

-- One ticket of the answer; `details` holds the code of the error.
pub record ExpoTicket : Type 0 where
  pub status : String
  pub id : String
  pub message : String
  pub details : Option String

pub record SendResult : Type 0 where
  pub sent : ℕ
  pub failed : ℕ
  pub deactivated : ℕ
  pub errors : List String
  pub tickets : List ExpoTicket

abbrev pub nothing_sent : SendResult
nothing_sent = record { sent = 0; failed = 0; deactivated = 0; errors = []; tickets = [] }

-- What postMessages gives back: the HTTP client and the JSON library are outside the program.
pub data Posted : Type 0 where
  post_failed : String → Posted
  post_answered : List ExpoTicket → Posted

-- `ticket.Details != nil && ticket.Details.Error == "DeviceNotRegistered"`
abbrev pub is_unregistered : Option String → Bool
is_unregistered none = false
is_unregistered (some code) = str_eq code "DeviceNotRegistered"

-- `if err := …; err == nil { out.Deactivated++ }`
abbrev pub count_deactivated : SendResult → Outcome (Unit {0}) → Outcome SendResult
count_deactivated out (ok _ w) = ok (record out { deactivated = out.deactivated + 1 }) w
count_deactivated out (err e w) = ok out w

-- batch[i], if `i < len(batch)`.
abbrev pub deactivate_at : PushTokenStore → List String → SendResult → Tx SendResult
deactivate_at store [] out db = ok out db
deactivate_at store (token ∷ batch) out db =
    count_deactivated out (store.deactivate_by_token token db)

-- A ticket that is not "ok".
abbrev pub count_failed : ExpoTicket → SendResult → SendResult
count_failed ticket out = record out {
  failed = out.failed + 1;
  errors = if str_eq ticket.message "" then out.errors else insert_row ticket.message out.errors;
  tickets = insert_row ticket out.tickets;
}

abbrev pub count_sent : ExpoTicket → SendResult → SendResult
count_sent ticket out = record out { sent = out.sent + 1; tickets = insert_row ticket out.tickets }

unfoldable pub count_ticket : PushTokenStore → List String → ExpoTicket → SendResult → Tx SendResult
count_ticket store batch ticket out =
    if str_eq ticket.status "ok"
    then pure (count_sent ticket out)
    else if is_unregistered ticket.details
    then deactivate_at store batch (count_failed ticket out)
    else pure (count_failed ticket out)

abbrev pub rest_of : List String → List String
rest_of [] = []
rest_of (t ∷ ts) = ts

-- The loop over the tickets of a batch, with the tokens from `batch[i]` on.
unfoldable pub count_tickets :
    PushTokenStore → List String → List ExpoTicket → SendResult → Tx SendResult
unfolding count_ticket
count_tickets store batch [] out = pure out
count_tickets store batch (ticket ∷ tickets) out = do
  out' ← count_ticket store batch ticket out
  count_tickets store (rest_of batch) tickets out'

-- A batch after its messages were posted.
unfoldable pub count_posted : PushTokenStore → List String → Posted → SendResult → Tx SendResult
unfolding count_tickets
count_posted store batch (post_failed msg) out =
    pure (record out { failed = out.failed + length batch; errors = insert_row msg out.errors })
count_posted store batch (post_answered tickets) out = count_tickets store batch tickets out

module _ {Json : Type 0} where
  abbrev pub message_to : String → String → Option Json → String → ExpoMessage Json
  message_to title body json_data token = record {
    to = token;
    title = title;
    body = body;
    sound = "default";
    json_data = json_data;
    priority = "high";
  }

  -- The loop over the batches; `post k` is the answer to the k-th request.
  unfoldable pub send_batches :
      PushTokenStore
      → (ℕ → List (ExpoMessage Json) → Posted)
      → (String → ExpoMessage Json)
      → ℕ
      → List (List String)
      → SendResult
      → Tx SendResult
  unfolding count_posted
  send_batches store post message k [] out = pure out
  send_batches store post message k (batch ∷ batches) out = do
    out' ← count_posted store batch (post k (map message batch)) out
    send_batches store post message (suc k) batches out'

  unfoldable pub send_to_tokens :
      PushTokenStore
      → (ℕ → List (ExpoMessage Json) → Posted)
      → String
      → List String
      → String
      → String
      → Option Json
      → Tx SendResult
  send_to_tokens store post endpoint tokens title body json_data = do
    fail_if (str_eq endpoint "") Error.push_endpoint_not_configured
    send_batches store post (message_to title body json_data) 0 (chunk_strings tokens (pos 100))
        nothing_sent

  unfoldable pub send_campaign_to_users :
      PushTokenStore
      → (ℕ → List (ExpoMessage Json) → Posted)
      → String
      → List Uuid
      → String
      → String
      → Option Json
      → Tx SendResult
  send_campaign_to_users store post endpoint users title body json_data = do
    rows ←
        if PushTokenRepo.is_none_given users
        then store.list_all_active
        else store.list_active_for_users users
    send_to_tokens store post endpoint (map (λ r. r.token) rows) title body json_data

  unfoldable pub send_test_to_caller :
      PushTokenStore
      → (ℕ → List (ExpoMessage Json) → Posted)
      → String
      → Uuid
      → String
      → String
      → Tx SendResult
  send_test_to_caller store post endpoint user title body = do
    rows ← store.list_active_by_user user
    send_to_tokens store post endpoint (map (λ r. r.token) rows) title body none
