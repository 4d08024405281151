-- ===== src/Examples/Delivering.antt =====
-- The dispatcher on an outbox with one event.
use mathlib.Core.Option
use Prim.Native.String.{len}
use ficct_boutique_backend_g.Base.{
  true, length, ◌%◌, ◌↔◌, false, ℕ, ◌+◌, none, some, [], ◌∷◌, ◌≡◌, refl, arith,
}
use ficct_boutique_backend_g.Dispatcher.Signature.{
  Hmac, sign, verify, signature_header, verify-sign,
}
use ficct_boutique_backend_g.Base.Int.{pos}
use ficct_boutique_backend_g.Models.{WebhookEvent, WebhookStatus}
use ficct_boutique_backend_g.Store.{Db, Env, after, ◌>>◌}
use ficct_boutique_backend_g.Dispatcher.{Network, no_answer, Response, answered, deliver, tick}
use ficct_boutique_backend_g.Dispatcher.Backoff.{backoff, policy, backoff-policy, backoff_wraps}
use ficct_boutique_backend_g.Dispatcher.Delivery.{event_at}
use ficct_boutique_backend_g.Dispatcher.Progress.{tick_delivers}
use ficct_boutique_backend_g.Dispatcher.Races.{late_failure}
use ficct_boutique_backend_g.Examples.{shop, env_at}

abbrev pub sale_event : WebhookEvent
sale_event = record {
  id = 301;
  event_type = "sale.confirmed";
  aggregate_id = 7;
  payload = record {
    event = "sale.confirmed";
    sale_id = 7;
    order_id = 300;
    order_code = "ORD-20260610-0042";
    branch_id = 3;
    total = 1186;
    currency = "BOB";
    confirmed_at = some 3;
    items = [];
    customer = record { id = none; name = "Maria Cliente"; email = "maria@ficct.bo" };
  };
  target_url = "http://localhost:8001/api/v1/webhooks/sale-confirmed/";
  status = WebhookStatus.pending;
  attempts = 0;
  last_error = none;
  next_attempt_at = 3;
  delivered_at = none;
  created_at = 3;
}

abbrev pub queued : Db
queued = record shop { outbox = sale_event ∷ [] }

-- Nothing is converted out of range, and the database takes what it is sent.
abbrev pub receiver : Response → Network
receiver answer = record {
  post = λ e. answer;
  status_text = λ c b. b;
  out_of_range = λ k. 0;
  executes = λ id. true;
  is_text = λ s. true;
}

-- A receiver that takes everything, and one that is down.
abbrev up : Network
up = receiver (answered 200 "ok")

abbrev pub down : Network
down = receiver (no_answer "refused")

abbrev pub clock : ℕ → Env
clock k = env_at (4 + k)

backoff-policy_example : backoff (λ k. 0) 3 ≡ pos (policy 3)
backoff-policy_example = backoff-policy (λ k. 0) 3 (omega arith)

backoff_wraps_example : backoff (λ k. 0) 60 ≡ pos 0
backoff_wraps_example = backoff_wraps (λ k. 0) 60 (omega arith) (omega arith)

late_failure_example :
    (r : WebhookEvent) × ((event_at 301 (
          after
            ((deliver up (env_at 4) 5 sale_event >> deliver down (env_at 9) 5 sale_event) queued))
        ≡ some r)
      × ((r.status ≡ WebhookStatus.pending) × (r.delivered_at ≡ some 4)))
late_failure_example =
    late_failure up down (env_at 4) (env_at 9) 5 sale_event sale_event queued refl refl refl refl
      refl (omega arith)

tick_delivers_example :
    Option.map (λ e. e.status) (event_at 301 (after (tick up clock 5 queued)))
    ≡ some WebhookStatus.delivered
tick_delivers_example =
    tick_delivers up clock 5 301 queued (λ e. refl) (λ i. refl) refl refl (omega arith) refl

-- A code that counts: the lengths of the secret and of the payload.
abbrev lengths : Hmac
lengths = record { mac = λ secret payload. (len secret % 256) ∷ (length payload % 256) ∷ [] }

verify-sign_example :
    (verify lengths "secret" (1 ∷ 2 ∷ []) (sign lengths "secret" (1 ∷ 2 ∷ [])) ≡ true)
    × ((verify lengths "secret" (1 ∷ 2 ∷ []) (sign lengths "other" (1 ∷ [])) ≡ true)
        ↔ (lengths.mac "secret" (1 ∷ 2 ∷ []) ≡ lengths.mac "other" (1 ∷ [])))
    × (verify lengths "secret" (1 ∷ 2 ∷ []) (signature_header lengths "other" (1 ∷ [])) ≡ false)
verify-sign_example =
    verify-sign lengths "secret" "other" (1 ∷ 2 ∷ []) (1 ∷ []) (omega arith, (omega arith, tt))
      (omega arith, (omega arith, tt))
