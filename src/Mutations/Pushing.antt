-- ===== src/Mutations/Pushing.antt =====
-- graph/mutations.go: sendTestPushNotification and sendPushCampaign.
use ficct_boutique_backend_g.Base.{ℕ, ◌||◌, String, Option, none, some, List, []}
use ficct_boutique_backend_g.Models.{Uuid}
use ficct_boutique_backend_g.Store.{Error, Tx, ◌>>=◌, ◌>>◌, fail_if, or_fail}
use ficct_boutique_backend_g.Authz.{Context, check, require_auth, require_admin, parse_or_fail}
use ficct_boutique_backend_g.Mutations.Registering.{subject_of}
use ficct_boutique_backend_g.Text.{trim_space, is_blank}
use ficct_boutique_backend_g.PushSender.{
  PushTokenStore, ExpoMessage, Posted, SendResult, send_test_to_caller, send_campaign_to_users,
}

-- The sender of a resolver, nil where none is configured: its endpoint and the answers to its
-- requests.
pub record PushSender (Json : Type 0) : Type 0 where
  pub endpoint : String
  pub store : PushTokenStore
  pub post : ℕ → List (ExpoMessage Json) → Posted

-- `args.Input.UserIDs`, nil or a list.
abbrev pub users_or_none : Option (List Uuid) → List Uuid
users_or_none none = []
users_or_none (some users) = users

module _ {Json : Type 0} where
  unfoldable pub send_test_push_notification :
      (String → Option Uuid) → Option (PushSender Json) → Context → String → String → Tx SendResult
  send_test_push_notification parse sender ctx title body = do
    check (require_auth ctx)
    s ← or_fail Error.push_sender_not_configured sender
    uid ← parse_or_fail parse (subject_of ctx)
    fail_if (is_blank (trim_space title) || is_blank (trim_space body))
        Error.title_and_body_required
    send_test_to_caller s.store s.post s.endpoint uid (trim_space title) (trim_space body)

  unfoldable pub send_push_campaign :
      Option (PushSender Json) → Context → String → String → Option (List Uuid) → Tx SendResult
  send_push_campaign sender ctx title body users = do
    check (require_admin ctx)
    s ← or_fail Error.push_sender_not_configured sender
    fail_if (is_blank (trim_space title) || is_blank (trim_space body))
        Error.title_and_body_required
    send_campaign_to_users s.store s.post s.endpoint (users_or_none users) (trim_space title)
        (trim_space body) none
