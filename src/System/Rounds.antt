-- ===== src/System/Rounds.antt =====
-- The rounds of internal/webhook/dispatcher.go, seen from the table `inventory`.
use ficct_boutique_backend_g.Base.{Bool, String, List, [], ◌∷◌, ℕ, suc, ◌+◌}
use ficct_boutique_backend_g.Models.{Uuid, Timestamp, Inventory, WebhookEvent}
use ficct_boutique_backend_g.Store.{Env, Tx, Outcome, ok, err, after}
use ficct_boutique_backend_g.Store.Keeps.{
  Keeps, fail_if-Keeps, >>=-Keeps, in_transaction-Keeps, if-Keeps,
}
use ficct_boutique_backend_g.OutboxRepo.{fetch_due, mark_delivered, mark_failed}
use ficct_boutique_backend_g.Dispatcher.{
  Network, Response, no_request, no_answer, answered, is_success, handle, mark_failure, deliver,
  deliver_all, deliver_fetched, tick, mark_success, logged,
}

module _ (P : List Inventory → Type 0) where
  logged-Keeps : (m : Tx (Unit {0})) → Keeps P m → Keeps P (λ db. logged (m db))
  logged-Keeps m k db p = go (m db) (k db p)
    where
      go : (o : Outcome (Unit {0})) → P (after o).inventory → P (after (logged o)).inventory
      go (ok a w) q = q
      go (err e w) q = q

  mark_failed-Keeps :
      (executes : Bool) (is_text : String → Bool) (id : Uuid) (attempts : ℕ) (msg : String)
      (next : Timestamp) (terminal : Bool)
      → Keeps P (mark_failed executes is_text id attempts msg next terminal)
  unfolding mark_failed
  mark_failed-Keeps executes is_text id attempts msg next terminal db p =
      search (fail_if-Keeps P, p)

  mark_failure-Keeps :
      (net : Network) (env : Env) (max_retries : ℕ) (id : Uuid) (attempts : ℕ) (msg : String)
      → Keeps P (mark_failure net env max_retries id attempts msg)
  unfolding mark_failure
  mark_failure-Keeps net env max_retries id attempts msg =
      logged-Keeps (mark_failed (net.executes id) net.is_text id attempts msg _ _)
        (mark_failed-Keeps (net.executes id) net.is_text id attempts msg _ _)

  mark_delivered-Keeps :
      (executes : Bool) (env : Env) (id : Uuid) → Keeps P (mark_delivered executes env id)
  unfolding mark_delivered
  mark_delivered-Keeps executes env id db p = search (fail_if-Keeps P, p)

  mark_success-Keeps : (net : Network) (env : Env) (id : Uuid) → Keeps P (mark_success net env id)
  unfolding mark_success
  mark_success-Keeps net env id =
      logged-Keeps (mark_delivered (net.executes id) env id)
        (mark_delivered-Keeps (net.executes id) env id)

  handle-Keeps :
      (net : Network) (env : Env) (max_retries : ℕ) (id : Uuid) (attempts : ℕ) (r : Response)
      → Keeps P (handle net env max_retries id attempts r)
  handle-Keeps net env max_retries id attempts (no_request msg) =
      mark_failure-Keeps net env max_retries id attempts msg
  handle-Keeps net env max_retries id attempts (no_answer msg) =
      mark_failure-Keeps net env max_retries id attempts msg
  handle-Keeps net env max_retries id attempts (answered code body) =
      if-Keeps P (is_success code) (mark_success net env id) _ (mark_success-Keeps net env id)
        (mark_failure-Keeps net env max_retries id attempts (net.status_text code body))

  deliver_all-Keeps :
      (net : Network) (clock : ℕ → Env) (max_retries k : ℕ) (events : List WebhookEvent)
      → Keeps P (deliver_all net clock max_retries k events)
  unfolding deliver_all deliver
  deliver_all-Keeps net clock max_retries k [] db p = p
  deliver_all-Keeps net clock max_retries k (e ∷ es) db p =
      >>=-Keeps P (deliver net (clock k) max_retries e) _
        (handle-Keeps net (clock k) max_retries e.id (e.attempts + 1) (net.post e))
        (λ u. deliver_all-Keeps net clock max_retries (suc k) es) db p

  pub tick-Keeps :
      (net : Network) (clock : ℕ → Env) (max_retries : ℕ) → Keeps P (tick net clock max_retries)
  unfolding tick fetch_due
  tick-Keeps net clock max_retries db p =
      go (fetch_due (clock 0) 10 db) (in_transaction-Keeps P (clock 0) _ (λ d q. q) db p)
    where
      go :
          (o : Outcome (List WebhookEvent))
          → P (after o).inventory
          → P (after (deliver_fetched net clock max_retries o)).inventory
      go (ok events w) q = deliver_all-Keeps net clock max_retries 1 events w q
      go (err e w) q = q
