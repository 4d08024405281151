-- ===== src/System/Devices.antt =====
-- The push tokens and internal/service/push_sender.go, seen from the table `inventory`.
use ficct_boutique_backend_g.Base.{
  String, Option, none, some, List, [], ◌∷◌, ℕ, suc, if◌then◌else◌, str_eq, map,
}
use ficct_boutique_backend_g.Models.{Uuid, Inventory, PushToken, PushPlatform}
use ficct_boutique_backend_g.Store.{Env, Error, Outcome, ok, err, after, pure}
use ficct_boutique_backend_g.Store.Keeps.{Keeps, >>=-Keeps, fail_if-Keeps, if-Keeps}
use ficct_boutique_backend_g.PushTokenRepo
use ficct_boutique_backend_g.PushSender.{
  token_store, ExpoMessage, ExpoTicket, SendResult, Posted, post_failed, post_answered,
  count_deactivated, deactivate_at, count_failed, count_sent, count_ticket, count_tickets,
  count_posted, rest_of, send_batches, send_to_tokens, send_campaign_to_users, send_test_to_caller,
  is_unregistered, nothing_sent, message_to,
}

module _ (P : List Inventory → Type 0) where
  -- Device tokens.
  on_token-Keeps :
      (env : Env) (user : Uuid) (token : String) (platform : PushPlatform) (device : Option String)
      (rows : List PushToken) (row : Option PushToken)
      → Keeps P (PushTokenRepo.on_token env user token platform device rows row)
  on_token-Keeps env user token platform device rows (some t) db p = p
  on_token-Keeps env user token platform device rows none db p = search (fail_if-Keeps P, p)

  pub upsert_token-Keeps :
      (env : Env) (user : Uuid) (token : String) (platform : PushPlatform) (device : Option String)
      → Keeps P (PushTokenRepo.upsert env user token platform device)
  unfolding PushTokenRepo.upsert
  upsert_token-Keeps env user token platform device db p =
      search (fail_if-Keeps P, on_token-Keeps env user token platform device, p)

  pub deactivate-Keeps :
      (env : Env) (user : Uuid) (token : String) → Keeps P (PushTokenRepo.deactivate env user token)
  unfolding PushTokenRepo.deactivate
  deactivate-Keeps env user token db p = p

  deactivate_by_token-Keeps :
      (env : Env) (token : String) → Keeps P (PushTokenRepo.deactivate_by_token env token)
  unfolding PushTokenRepo.deactivate_by_token
  deactivate_by_token-Keeps env token db p = p

  list_for_users-Keeps : (users : List Uuid) → Keeps P (PushTokenRepo.list_active_for_users users)
  unfolding PushTokenRepo.list_active_for_users
  list_for_users-Keeps users =
      if-Keeps P (PushTokenRepo.is_none_given users) (pure []) _ (λ d q. q) (λ d q. q)

  -- Notifications, over the repository of the tokens.
  module _ (env : Env) where
    counted :
        (out : SendResult) (o : Outcome (Unit {0}))
        → P (after o).inventory
        → P (after (count_deactivated out o)).inventory
    counted out (ok a w) q = q
    counted out (err e w) q = q

    deactivate_at-Keeps :
        (batch : List String) (out : SendResult)
        → Keeps P (deactivate_at (token_store env) batch out)
    deactivate_at-Keeps [] out db p = p
    deactivate_at-Keeps (token ∷ batch) out db p =
        counted out (PushTokenRepo.deactivate_by_token env token db)
          (deactivate_by_token-Keeps env token db p)

    count_ticket-Keeps :
        (batch : List String) (ticket : ExpoTicket) (out : SendResult)
        → Keeps P (count_ticket (token_store env) batch ticket out)
    unfolding count_ticket
    count_ticket-Keeps batch ticket out =
        if-Keeps P (str_eq ticket.status "ok") (pure (count_sent ticket out)) _ (λ db p. p)
          (if-Keeps P (is_unregistered ticket.details)
            (deactivate_at (token_store env) batch (count_failed ticket out))
            (pure (count_failed ticket out)) (deactivate_at-Keeps batch (count_failed ticket out))
            (λ db p. p))

    count_tickets-Keeps :
        (batch : List String) (tickets : List ExpoTicket) (out : SendResult)
        → Keeps P (count_tickets (token_store env) batch tickets out)
    unfolding count_tickets
    count_tickets-Keeps batch [] out db p = p
    count_tickets-Keeps batch (ticket ∷ tickets) out db p =
        >>=-Keeps P (count_ticket (token_store env) batch ticket out) _
          (count_ticket-Keeps batch ticket out) (count_tickets-Keeps (rest_of batch) tickets) db p

    count_posted-Keeps :
        (batch : List String) (posted : Posted) (out : SendResult)
        → Keeps P (count_posted (token_store env) batch posted out)
    unfolding count_posted
    count_posted-Keeps batch (post_failed msg) out db p = p
    count_posted-Keeps batch (post_answered tickets) out db p =
        count_tickets-Keeps batch tickets out db p

    module _ {Json : Type 0} (post : ℕ → List (ExpoMessage Json) → Posted) where
      send_batches-Keeps :
          (message : String → ExpoMessage Json) (k : ℕ) (batches : List (List String))
          (out : SendResult)
          → Keeps P (send_batches (token_store env) post message k batches out)
      unfolding send_batches
      send_batches-Keeps message k [] out db p = p
      send_batches-Keeps message k (batch ∷ batches) out db p =
          >>=-Keeps P (count_posted (token_store env) batch (post k (map message batch)) out) _
            (count_posted-Keeps batch (post k (map message batch)) out)
            (send_batches-Keeps message (suc k) batches) db p

      send_to_tokens-Keeps :
          (endpoint : String) (tokens : List String) (title body : String) (data' : Option Json)
          → Keeps P (send_to_tokens (token_store env) post endpoint tokens title body data')
      unfolding send_to_tokens
      send_to_tokens-Keeps endpoint tokens title body data' =
          fail_if-Keeps P (str_eq endpoint "") Error.push_endpoint_not_configured _
            (send_batches-Keeps (message_to title body data') 0 _ nothing_sent)

      pub send_campaign-Keeps :
          (endpoint : String) (users : List Uuid) (title body : String) (data' : Option Json)
          → Keeps P (send_campaign_to_users (token_store env) post endpoint users title body data')
      unfolding send_campaign_to_users PushTokenRepo.list_all_active
      send_campaign-Keeps endpoint users title body data' =
          >>=-Keeps P
            (if PushTokenRepo.is_none_given users
              then PushTokenRepo.list_all_active
              else PushTokenRepo.list_active_for_users users)
            _
            (if-Keeps P (PushTokenRepo.is_none_given users) PushTokenRepo.list_all_active _
              (λ d q. q) (list_for_users-Keeps users))
            λ rows. send_to_tokens-Keeps endpoint _ title body data'

      pub send_test-Keeps :
          (endpoint : String) (user : Uuid) (title body : String)
          → Keeps P (send_test_to_caller (token_store env) post endpoint user title body)
      unfolding send_test_to_caller PushTokenRepo.list_active_by_user
      send_test-Keeps endpoint user title body db p =
          send_to_tokens-Keeps endpoint _ title body none db p
