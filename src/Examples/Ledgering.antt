-- ===== src/Examples/Ledgering.antt =====
-- A ledger of the stock of the shop of `Examples`, and an event that nobody takes.
use ficct_boutique_backend_g.Base.{false, ◌+◌, ◌≤◌, ◌≡◌, refl, List, [], ◌∷◌, arith}
use ficct_boutique_backend_g.Base.Int.{pos, negsuc}
use ficct_boutique_backend_g.Models.{WebhookEvent}
use ficct_boutique_backend_g.Store.{Env}
use ficct_boutique_backend_g.InventoryRepo.Ledger.{
  Call, set_to, adjust, sell, run, log, replay, AreAllowed, book_of,
}
use ficct_boutique_backend_g.InventoryRepo.Ledger.Refines.{run-replay}
use ficct_boutique_backend_g.Dispatcher.Sending.{IsOnly}
use ficct_boutique_backend_g.Dispatcher.Retries.{Round, IsOutcome, sent, retries_end}
use ficct_boutique_backend_g.Dispatcher.Retries
use ficct_boutique_backend_g.Dispatcher.{Network, answered}
use ficct_boutique_backend_g.Examples.{shop, env_at}
use ficct_boutique_backend_g.Examples.Delivering.{sale_event, queued, receiver, down, clock}

-- Three are sold, twenty are asked for, two are broken and one is found.
abbrev calls : List (Env × Call)
calls =
    (env_at 4, sell 5 3 (pos 3))
    ∷ (env_at 5, sell 5 3 (pos 20))
    ∷ (env_at 6, adjust 5 3 (negsuc 1))
    ∷ (env_at 7, set_to 5 3 (pos 6))
    ∷ []

run-replay_example :
    (book_of (run calls shop) ≡ replay (log calls shop) (book_of shop))
    × AreAllowed (log calls shop) (book_of shop)
run-replay_example =
    run-replay calls shop (record { nonneg = (omega arith, tt); unique = (refl, tt) })

-- Two rounds in which the receiver is down.
abbrev rounds : List Round
rounds = (down, clock) ∷ (down, λ k. env_at (20 + k)) ∷ []

retries_end_example :
    (last : WebhookEvent) × IsOnly 301 last (Retries.run 5 301 rounds queued)
    × (0 + sent 5 301 rounds queued ≤ 5)
    × IsOutcome 5 301 (0 + sent 5 301 rounds queued) last
retries_end_example =
    retries_end 5 301 rounds sale_event queued ((λ e i. refl), ((λ e i. refl), tt))
      (refl, ((λ h. refl), tt)) refl (omega arith)

-- A receiver whose answers are no text: the event is sent in every round.
abbrev garbled : Network
garbled = record (receiver (answered 500 "?")) { is_text = λ s. false }
