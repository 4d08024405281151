-- ===== src/Dispatcher.antt =====
-- internal/webhook/dispatcher.go: delivery of the events in the outbox, with retries.
pub mod Backoff
pub mod Fetch
pub mod Delivery
pub mod Rounds
pub mod Progress
pub mod Races
pub mod Sending
pub mod Retries
pub mod Unrecorded
pub mod Signature
use ficct_boutique_backend_g.Base.{
  ℕ, suc, ◌+◌, Bool, true, false, ◌&&◌, String, List, [], ◌∷◌, leb, ltb, if◌then◌else◌,
}
use ficct_boutique_backend_g.Models.{Uuid, Timestamp, WebhookEvent}
use ficct_boutique_backend_g.Store.{Db, Tx, Env, Outcome, ok, err, pure, ◌>>=◌, ◌>>◌, after}
use ficct_boutique_backend_g.OutboxRepo.{fetch_due, mark_delivered, mark_failed}
use Backoff.{next_attempt}

-- What came of a POST: no request could be made, no answer came, or an answer with a status and
-- the start of its body. Each error has its text.
pub data Response : Type 0 where
  no_request : String → Response
  no_answer : String → Response
  answered : ℕ → String → Response

-- The receiver, with the signed request that a delivery sends (the HMAC and the HTTP client are
-- libraries), the text of a failed answer (fmt.Sprintf), what the conversion of a float64 gives
-- beyond the range of int64, which Go leaves to the implementation, whether the database executes the
-- UPDATE that marks an event, and which texts a TEXT column takes.
pub record Network : Type 0 where
  pub post : WebhookEvent → Response
  pub status_text : ℕ → String → String
  pub out_of_range : ℕ → ℕ
  pub executes : Uuid → Bool
  pub is_text : String → Bool

-- `resp.StatusCode >= 200 && resp.StatusCode < 300`
abbrev pub is_success : ℕ → Bool
is_success code = leb 200 code && ltb code 300

-- `if err := …; err != nil { log… }`
abbrev pub logged : Outcome (Unit {0}) → Outcome (Unit {0})
logged (ok a w) = ok tt w
logged (err e w) = ok tt w

unfoldable pub mark_failure : Network → Env → ℕ → Uuid → ℕ → String → Tx (Unit {0})
mark_failure net env max_retries id attempts msg db = logged (
    mark_failed (net.executes id) net.is_text id attempts msg
      (next_attempt net.out_of_range env.now attempts) (leb max_retries attempts) db)

unfoldable pub mark_success : Network → Env → Uuid → Tx (Unit {0})
mark_success net env id db = logged (mark_delivered (net.executes id) env id db)

abbrev pub handle : Network → Env → ℕ → Uuid → ℕ → Response → Tx (Unit {0})
handle net env max_retries id attempts (no_request msg) =
    mark_failure net env max_retries id attempts msg
handle net env max_retries id attempts (no_answer msg) =
    mark_failure net env max_retries id attempts msg
handle net env max_retries id attempts (answered code body) =
    if is_success code
    then mark_success net env id
    else mark_failure net env max_retries id attempts (net.status_text code body)

unfoldable pub deliver : Network → Env → ℕ → WebhookEvent → Tx (Unit {0})
deliver net env max_retries e = handle net env max_retries e.id (e.attempts + 1) (net.post e)

-- The loop over the fetched events; the k-th delivery has its own time.
unfoldable pub deliver_all : Network → (ℕ → Env) → ℕ → ℕ → List WebhookEvent → Tx (Unit {0})
deliver_all net clock max_retries k [] = pure tt
deliver_all net clock max_retries k (e ∷ events) = do
  deliver net (clock k) max_retries e
  deliver_all net clock max_retries (suc k) events

-- An error of FetchDue ends the round.
abbrev pub deliver_fetched :
    Network → (ℕ → Env) → ℕ → Outcome (List WebhookEvent) → Outcome (Unit {0})
deliver_fetched net clock max_retries (ok events w) = deliver_all net clock max_retries 1 events w
deliver_fetched net clock max_retries (err e w) = ok tt w

unfoldable pub tick : Network → (ℕ → Env) → ℕ → Tx (Unit {0})
tick net clock max_retries db = deliver_fetched net clock max_retries (fetch_due (clock 0) 10 db)
