-- ===== src/Shared/Outbox/Tests.antt =====
-- The publisher of the outbox at a concrete outbox.
use faktureringssystemet.Prelude.{none, [], ◌∷◌, All, arith, refl, ◌≡◌, ◌≤◌}
use faktureringssystemet.Shared.Outbox.{
  OutboxRow, Outbox, refused, tick, publish_batch, backoff_seconds,
}
use faktureringssystemet.Shared.Outbox.Batch.{IsInOrder, times_sent}
use faktureringssystemet.Shared.Outbox.Laws.{Tick, ticks, ticks_bounded}

abbrev new_row : OutboxRow
new_row = record {
  event_id = 7;
  source_service = 1;
  occurred_at = 100;
  attempts = 0;
  next_attempt_at = 100;
  published_at = none;
  failed_at = none;
}

abbrev one_event : Outbox
one_event = record { rows = new_row ∷ []; sent = [] }

abbrev failing_tick : Tick
failing_tick = record { publish = λ id. refused; now = 200; service = 1 }

one_event-IsInOrder : IsInOrder one_event
one_event-IsInOrder = record { tallied = (refl, tt); ids = λ e. ground arith }

ticks_bounded_example :
    All
      (λ r. times_sent r.event_id (ticks (failing_tick ∷ failing_tick ∷ []) one_event).sent ≤ 12)
      (ticks (failing_tick ∷ failing_tick ∷ []) one_event).rows
    × IsInOrder (ticks (failing_tick ∷ failing_tick ∷ []) one_event)
ticks_bounded_example =
    ticks_bounded (failing_tick ∷ failing_tick ∷ []) one_event one_event-IsInOrder

sent_run : (ticks (failing_tick ∷ failing_tick ∷ []) one_event).sent ≡ 7 ∷ []
unfolding tick publish_batch backoff_seconds
sent_run = refl
