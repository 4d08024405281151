-- ===== src/PushSender/Accounts.antt =====
-- The counts of a campaign: SendToTokens of internal/service/push_sender.go.
use ficct_boutique_backend_g.Base.{
  ℕ, suc, ◌+◌, ◌≤◌, ◌≡◌, refl, sym, ap, subst, ◌∙◌, Bool, true, false, String, Option, List, [],
  ◌∷◌, map, length, length-append, length-map, arith, if◌then◌else◌, str_eq,
}
use ficct_boutique_backend_g.Base.Int.{pos}
use ficct_boutique_backend_g.Store.{Db, Error, Tx, Outcome, ok, err, pure, ◌>>=◌, fail_if}
use ficct_boutique_backend_g.Store.Laws.{>>-ok}
use ficct_boutique_backend_g.PushSender.Chunks.{concat, chunk_strings, chunk_strings-concat}
use ficct_boutique_backend_g.PushSender.{
  PushTokenStore, ExpoMessage, ExpoTicket, SendResult, nothing_sent, Posted, post_failed,
  post_answered, is_unregistered, count_deactivated, deactivate_at, count_failed, count_sent,
  count_ticket, rest_of, count_tickets, message_to, count_posted, send_batches, send_to_tokens,
}

-- `n` more messages are accounted for, and no more tokens are switched off than messages failed.
pub record Grows (n : ℕ) (out out' : SendResult) : Type 0 where
  pub total : out'.sent + out'.failed ≡ out.sent + out.failed + n
  pub dead : out'.deactivated + out.failed ≤ out.deactivated + out'.failed

-- The call goes well and accounts for `n` more messages.
abbrev pub Counts : ℕ → SendResult → Outcome SendResult → Type 0
Counts n out o = (out' : SendResult) × (w : Db) × (o ≡ ok out' w) × Grows n out out'

one_more : (n : ℕ) → 1 + n ≡ suc n
one_more n = omega arith

module _ (store : PushTokenStore) where
  deactivate_at-Counts :
      (batch : List String) (ticket : ExpoTicket) (out : SendResult) (db : Db)
      → Counts 1 out (deactivate_at store batch (count_failed ticket out) db)
  deactivate_at-Counts [] ticket out db =
      (count_failed ticket out, db, refl, record { total = omega arith; dead = omega arith })
  deactivate_at-Counts (token ∷ batch) ticket out db = go (store.deactivate_by_token token db)
    where
      go : (o : Outcome (Unit {0})) → Counts 1 out (count_deactivated (count_failed ticket out) o)
      go (ok u w) = (_, w, refl, record { total = omega arith; dead = omega arith })
      go (err e w) = (_, w, refl, record { total = omega arith; dead = omega arith })

  count_ticket-Counts :
      (batch : List String) (ticket : ExpoTicket) (out : SendResult) (db : Db)
      → Counts 1 out (count_ticket store batch ticket out db)
  unfolding count_ticket
  count_ticket-Counts batch ticket out db =
      go (str_eq ticket.status "ok") (is_unregistered ticket.details)
    where
      go :
          (good dead : Bool)
          → Counts 1 out (
              (if good
                  then pure (count_sent ticket out)
                  else if dead
                  then deactivate_at store batch (count_failed ticket out)
                  else pure (count_failed ticket out))
                db)
      go true dead = (_, db, refl, record { total = omega arith; dead = omega arith })
      go false true = deactivate_at-Counts batch ticket out db
      go false false = (_, db, refl, record { total = omega arith; dead = omega arith })

  -- One step after another.
  Counts-trans :
      (m n : ℕ) (out : SendResult) (first : Tx SendResult) (next : SendResult → Tx SendResult)
      (db : Db)
      → Counts m out (first db)
      → ((out' : SendResult) (w : Db) → Counts n out' (next out' w))
      → Counts (m + n) out ((first >>= next) db)
  Counts-trans m n out first next db (out', v, e, g) rest =
      let (out'', w, e', g') = rest out' v in
      (
        out'',
        w,
        ap (λ (o : Outcome SendResult). elim o [ ok a d ↦ next a d | err x d ↦ err x d ]) e ∙ e',
        record { total = omega (arith, g.total, g'.total); dead = omega (arith, g.dead, g'.dead) },
      )

  count_tickets-Counts :
      (batch : List String) (tickets : List ExpoTicket) (out : SendResult) (db : Db)
      → Counts (length tickets) out (count_tickets store batch tickets out db)
  unfolding count_tickets
  count_tickets-Counts batch [] out db =
      (out, db, refl, record { total = omega arith; dead = omega arith })
  count_tickets-Counts batch (ticket ∷ tickets) out db =
      subst (λ n. Counts n out (count_tickets store batch (ticket ∷ tickets) out db))
        (one_more (length tickets))
        (Counts-trans 1 (length tickets) out (count_ticket store batch ticket out) _ db
          (count_ticket-Counts batch ticket out db)
          (λ out' w. count_tickets-Counts (rest_of batch) tickets out' w))

  count_posted-Counts :
      (batch : List String) (answer : Posted) (out : SendResult) (db : Db)
      → ((tickets : List ExpoTicket)
          → answer ≡ post_answered tickets
          → length tickets ≡ length batch)
      → Counts (length batch) out (count_posted store batch answer out db)
  unfolding count_posted
  count_posted-Counts batch (post_failed msg) out db parallel =
      (_, db, refl, record { total = omega arith; dead = omega arith })
  count_posted-Counts batch (post_answered tickets) out db parallel =
      subst (λ n. Counts n out (count_tickets store batch tickets out db)) (parallel tickets refl)
        (count_tickets-Counts batch tickets out db)

module _ {Json : Type 0} (store : PushTokenStore)
    (post : ℕ → List (ExpoMessage Json) → Posted) where
  -- The answer to a request has one ticket for each of its messages.
  abbrev pub IsParallel : Type 0
  IsParallel =
      (k : ℕ) (messages : List (ExpoMessage Json)) (tickets : List ExpoTicket)
      → post k messages ≡ post_answered tickets
      → length tickets ≡ length messages

  send_batches-Counts :
      (message : String → ExpoMessage Json) (k : ℕ) (batches : List (List String))
      (out : SendResult) (db : Db)
      → IsParallel
      → Counts (length (concat batches)) out (send_batches store post message k batches out db)
  unfolding send_batches
  send_batches-Counts message k [] out db parallel =
      (out, db, refl, record { total = omega arith; dead = omega arith })
  send_batches-Counts message k (batch ∷ batches) out db parallel =
      subst (λ n. Counts n out (send_batches store post message k (batch ∷ batches) out db))
        (sym (length-append batch (concat batches)))
        (Counts-trans store (length batch) (length (concat batches)) out
          (count_posted store batch (post k (map message batch)) out)
          (send_batches store post message (suc k) batches) db
          (count_posted-Counts store batch (post k (map message batch)) out db
            (λ tickets e. parallel k (map message batch) tickets e ∙ length-map batch message))
          (λ out' w. send_batches-Counts message (suc k) batches out' w parallel))

  -- Where an endpoint is set and the push service answers one ticket for each message, as it
  -- documents, sending to a list of tokens goes well, whatever requests fail and whatever the
  -- repository answers: every token is counted once, as sent or as failed, and at most as many are
  -- switched off as failed.
  pub send_to_tokens-Counts :
      (endpoint : String) (tokens : List String) (title body : String) (json_data : Option Json)
      (db : Db)
      → str_eq endpoint "" ≡ false
      → IsParallel
      → (out : SendResult) × (w : Db) × (send_to_tokens store post endpoint tokens title body
            json_data db
          ≡ ok out w)
        × (out.sent + out.failed ≡ length tokens)
        × (out.deactivated ≤ out.failed)
  unfolding send_to_tokens
  send_to_tokens-Counts endpoint tokens title body json_data db set parallel =
      let batches = chunk_strings tokens (pos 100) in
      let (out, w, e, g) =
        send_batches-Counts (message_to title body json_data) 0 batches nothing_sent db parallel in
      (
        out,
        w,
        (>>-ok (fail_if (str_eq endpoint "") Error.push_endpoint_not_configured)
              (send_batches store post (message_to title body json_data) 0 batches nothing_sent) db
              (rw set refl)
            ∙ e),
        omega (arith, g.total, ap length (chunk_strings-concat tokens (pos 100)).0),
        omega (arith, g.dead),
      )
