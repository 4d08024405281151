-- ===== src/Dispatcher/Races.antt =====
-- Two dispatchers on one outbox: deliver of internal/webhook/dispatcher.go after FetchDue has let the
-- row locks go.
use ficct_boutique_backend_g.Base.{
  ℕ, sym, leb-false, ◌+◌, ◌<◌, ◌≡◌, ◌∙◌, refl, ap, true, false, some,
}
use ficct_boutique_backend_g.Models.{WebhookStatus, WebhookEvent}
use ficct_boutique_backend_g.Store.{Db, Env, after, ◌>>◌}
use ficct_boutique_backend_g.Store.Laws.{>>-ok}
use ficct_boutique_backend_g.Dispatcher.{Network, deliver}
use ficct_boutique_backend_g.Dispatcher.Delivery.{
  accepted, is_recorded, event_at, settled, settle_event, deliver_outcome,
}

module _ (first second : Network) (env later : Env) (max_retries : ℕ) (e row : WebhookEvent)
    (db : Db) where
  settle_twice :
      accepted (first.post e) ≡ true
      → accepted (second.post e) ≡ false
      → first.executes e.id ≡ true
      → is_recorded second e ≡ true
      → e.attempts + 1 < max_retries
      → let r =
          settle_event second later max_retries e (settle_event first env max_retries e row) in
        (r.status ≡ WebhookStatus.pending) × (r.delivered_at ≡ some env.now)
  settle_twice good bad runs kept more =
      let last = leb-false max_retries (e.attempts + 1) more in
      rw kept (rw (good, runs) (rw bad (rw last (refl, refl))))

  -- Two dispatchers have read the same event. The receiver takes it from the first; the delivery of
  -- the second, with attempts left, fails; both outcomes are recorded. Then the event, delivered though it is, is pending again
  -- and will be sent once more: a failure is recorded whatever the status of the row is by then.
  pub late_failure :
      event_at e.id db ≡ some row
      → accepted (first.post e) ≡ true
      → accepted (second.post e) ≡ false
      → first.executes e.id ≡ true
      → is_recorded second e ≡ true
      → e.attempts + 1 < max_retries
      → (r : WebhookEvent) × ((event_at e.id
              (after ((deliver first env max_retries e >> deliver second later max_retries e) db))
            ≡ some r)
          × ((r.status ≡ WebhookStatus.pending) × (r.delivered_at ≡ some env.now)))
  late_failure there good bad runs kept more =
      let one = deliver_outcome first env max_retries e row db there in
      let between = settled first env max_retries e db in
      let two =
        deliver_outcome second later max_retries e (settle_event first env max_retries e row)
          between (ap (λ o. event_at e.id (after o)) (sym one.0) ∙ one.1) in
      (
        settle_event second later max_retries e (settle_event first env max_retries e row),
        (
          ap (λ o. event_at e.id (after o))
                (>>-ok (deliver first env max_retries e) (deliver second later max_retries e) db
                  one.0)
              ∙ two.1,
          settle_twice good bad runs kept more,
        ),
      )
