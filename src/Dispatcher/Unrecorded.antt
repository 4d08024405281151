-- ===== src/Dispatcher/Unrecorded.antt =====
-- An event whose failures the database does not record: markFailure of internal/webhook/dispatcher.go
-- logs the error of MarkFailed and goes on.
use ficct_boutique_backend_g.Base.{ℕ, ◌≡◌, true, false, [], ◌∷◌}
use ficct_boutique_backend_g.Models.{WebhookEvent}
use ficct_boutique_backend_g.Store.{Db}
use ficct_boutique_backend_g.OutboxRepo.{is_due}
use ficct_boutique_backend_g.Dispatcher.Delivery.{is_recorded}
use ficct_boutique_backend_g.Dispatcher.Retries.{Round}

module _ (max_retries : ℕ) (row : WebhookEvent) (d : Db) where
  -- The event is all that the outbox holds.
  abbrev pub waiting : Db
  waiting = record d { outbox = row ∷ [] }

  -- The round reads the event as due, and the outcome of its delivery is not recorded.
  abbrev pub IsLost : Round → Type 0
  IsLost (net, clock) =
      ((clock 0).begins ≡ true)
      × ((clock 0).commits ≡ true)
      × (is_due (clock 0) row ≡ true)
      × (is_recorded net row ≡ false)
