-- ===== src/Examples/Pushing.antt =====
-- Device tokens, campaigns, requests and texts on small inputs.
use ficct_boutique_backend_g.Base.{
  ap, suc, ◌∙◌, ◌+◌, ◌-◌, ◌*◌, ◌≤◌, ◌≡◌, refl, true, none, List, [], ◌∷◌, arith, length, All,
}
use ficct_boutique_backend_g.Base.Int.{pos}
use ficct_boutique_backend_g.Models.{PushToken, PushPlatform}
use ficct_boutique_backend_g.Store.{Db, ok}
use ficct_boutique_backend_g.PushTokenRepo.{upsert, find_by_token, new_token}
use ficct_boutique_backend_g.PushTokenRepo.Tokens.{HasUniqueTokens, upsert-HasUniqueTokens}
use ficct_boutique_backend_g.PushSender.{
  token_store, ExpoMessage, ExpoTicket, SendResult, post_answered, send_to_tokens,
}
use ficct_boutique_backend_g.PushSender.Chunks.{
  concat, chunk_strings, IsBatch, chunk_strings-concat,
}
use ficct_boutique_backend_g.PushSender.Accounts.{send_to_tokens-Counts}
use ficct_boutique_backend_g.RateLimiter.{Limits, token}
use ficct_boutique_backend_g.RateLimiter.Bound.{request, cleanup, granted, granted_le}
use ficct_boutique_backend_g.Examples.{env_at, shop}

abbrev phone : PushToken
phone = new_token (env_at 3) 1 "ExponentPushToken[a]" PushPlatform.android none

abbrev with_phone : Db
with_phone = record shop { push_tokens = phone ∷ [] }

upsert-HasUniqueTokens_example :
    HasUniqueTokens with_phone.push_tokens
    × (find_by_token "ExponentPushToken[a]" with_phone ≡ ok phone with_phone)
    × (phone.user_id ≡ 1)
    × (phone.is_active ≡ true)
unfolding upsert
upsert-HasUniqueTokens_example =
    upsert-HasUniqueTokens (env_at 3) 1 "ExponentPushToken[a]" PushPlatform.android none shop
      with_phone phone tt refl

chunk_strings-concat_example :
    (concat (chunk_strings ("a" ∷ "b" ∷ "c" ∷ []) (pos 2)) ≡ "a" ∷ "b" ∷ "c" ∷ [])
    × All (IsBatch 2) (chunk_strings ("a" ∷ "b" ∷ "c" ∷ []) (pos 2))
chunk_strings-concat_example = chunk_strings-concat ("a" ∷ "b" ∷ "c" ∷ []) (pos 2)

-- A push service that takes every message.
abbrev ticket : ExpoTicket
ticket = record { status = "ok"; id = "r1"; message = ""; details = none }

abbrev tickets_for : List (ExpoMessage (Unit {0})) → List ExpoTicket
tickets_for [] = []
tickets_for (m ∷ ms) = ticket ∷ tickets_for ms

tickets_parallel : (ms : List (ExpoMessage (Unit {0}))) → length (tickets_for ms) ≡ length ms
tickets_parallel [] = refl
tickets_parallel (m ∷ ms) = ap suc (tickets_parallel ms)

answered_same : (a b : List ExpoTicket) → post_answered a ≡ post_answered b → length b ≡ length a
answered_same a b h = cc

send_to_tokens-Counts_example :
    (out : SendResult) × (w : Db) × (send_to_tokens
        (token_store (env_at 5))
        (λ k ms. post_answered (tickets_for ms))
        "https://exp.host"
        ("a" ∷ "b" ∷ [])
        "Oferta"
        "Blusas"
        none
        shop
      ≡ ok out w)
    × (out.sent + out.failed ≡ 2)
    × (out.deactivated ≤ out.failed)
send_to_tokens-Counts_example =
    send_to_tokens-Counts (token_store (env_at 5)) (λ k ms. post_answered (tickets_for ms))
      "https://exp.host" ("a" ∷ "b" ∷ []) "Oferta" "Blusas" none shop refl
      (λ k ms ts e. answered_same (tickets_for ms) ts e ∙ tickets_parallel ms)

abbrev limits : Limits
limits = record { rps = 20; burst = 40 }

-- Two requests within a second, a cleanup between them.
granted_le_example :
    granted limits "10.0.0.7"
        (request 0 "10.0.0.7" ∷ cleanup 500000000 ∷ request 1000000000 "10.0.0.7" ∷ [])
        (λ k. none)
      * token
    ≤ limits.burst * token + (1000000000 - 0) * limits.rps
granted_le_example =
    granted_le limits "10.0.0.7" (omega arith)
      (request 0 "10.0.0.7" ∷ cleanup 500000000 ∷ request 1000000000 "10.0.0.7" ∷ []) 0 1000000000
      (λ k. none) tt (omega arith, (omega arith, (omega arith, omega arith)))
