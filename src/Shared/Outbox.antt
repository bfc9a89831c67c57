-- ===== src/Shared/Outbox.antt =====
-- packages/shared/src/outbox/index.ts: the publisher of the outbox. Times are in seconds; a number stands for
-- an event's id and for its service. What the broker answers is an argument; an envelope that is not valid
-- counts as refused. A batch is always committed here: a publisher that dies before that sends the events of
-- the batch again. The order of the rows that are due is theirs of writing where times are equal.
pub mod Batch
pub mod Order
pub mod Laws
mod Tests
use faktureringssystemet.Prelude.{
  ℕ, zero, suc, ◌+◌, ◌*◌, ◌^◌, Bool, true, false, ◌&&◌, not, Option, none, some, List, [], ◌∷◌,
  ◌++◌, ◌==◌, leb, if◌then◌else◌, min, is_some, select, take, update_where,
}

pub record OutboxRow : Type 0 where
  pub event_id : ℕ
  pub source_service : ℕ
  pub occurred_at : ℕ
  pub attempts : ℕ
  pub next_attempt_at : ℕ
  pub published_at : Option ℕ
  pub failed_at : Option ℕ

-- MAX_ATTEMPTS
abbrev pub max_attempts : ℕ
max_attempts = 12

-- BATCH_SIZE
abbrev pub batch_size : ℕ
batch_size = 20

-- BACKOFF_BASE_SECONDS
abbrev pub backoff_base_seconds : ℕ
backoff_base_seconds = 5

-- BACKOFF_CAP_SECONDS
abbrev pub backoff_cap_seconds : ℕ
backoff_cap_seconds = 3600

unfoldable pub backoff_seconds : ℕ → ℕ
backoff_seconds attempts = min (backoff_base_seconds * 2 ^ attempts) backoff_cap_seconds

-- Confirmed, not confirmed in time, or any other error.
pub data PublishResult : Type 0 where
  confirmed timed_out refused : PublishResult

abbrev pub is_due : ℕ → ℕ → OutboxRow → Bool
is_due now service r =
    r.source_service == service
    && not (is_some r.published_at)
    && not (is_some r.failed_at)
    && leb r.next_attempt_at now

-- ORDER BY occurred_at
abbrev pub insert_by_time : OutboxRow → List OutboxRow → List OutboxRow
insert_by_time r [] = r ∷ []
insert_by_time r (x ∷ xs) =
    let rest = insert_by_time r xs in
    if leb r.occurred_at x.occurred_at then r ∷ x ∷ xs else x ∷ rest

abbrev pub by_time : List OutboxRow → List OutboxRow
by_time [] = []
by_time (r ∷ rs) = insert_by_time r (by_time rs)

abbrev pub has_event : ℕ → OutboxRow → Bool
has_event id r = r.event_id == id

abbrev pub as_published : ℕ → OutboxRow → OutboxRow
as_published now r = record r { published_at = some now }

abbrev pub as_failed : ℕ → ℕ → OutboxRow → OutboxRow
as_failed now n r = record r { attempts = n; failed_at = some now }

abbrev pub as_delayed : ℕ → ℕ → ℕ → OutboxRow → OutboxRow
as_delayed now tried n r = record r { attempts = n; next_attempt_at = now + backoff_seconds tried }

-- A row that could not be published: a dead letter after the last attempt, and else a later attempt.
abbrev pub record_failure : ℕ → OutboxRow → List OutboxRow → List OutboxRow
record_failure now row rows =
    let n = suc row.attempts in
    if leb max_attempts n
    then update_where (has_event row.event_id) (as_failed now n) rows
    else update_where (has_event row.event_id) (as_delayed now row.attempts n) rows

-- The outbox and the ids that were given to the broker, the last one first.
pub record Outbox : Type 0 where
  pub rows : List OutboxRow
  pub sent : List ℕ

abbrev pub after_publish : ℕ → OutboxRow → PublishResult → Outbox → Outbox
after_publish now row confirmed box = record box {
  rows = update_where (has_event row.event_id) (as_published now) box.rows;
}
after_publish now row _ box = record box { rows = record_failure now row box.rows }

abbrev pub with_sent : OutboxRow → Outbox → Outbox
with_sent row box = record box { sent = row.event_id ∷ box.sent }

abbrev pub is_stalled : PublishResult → Bool
is_stalled timed_out = true
is_stalled _ = false

-- The loop over a batch, which a broker that does not confirm in time ends.
unfoldable pub publish_batch : (ℕ → PublishResult) → ℕ → List OutboxRow → Outbox → Outbox
publish_batch publish now [] box = box
publish_batch publish now (row ∷ rows) box =
    let next = after_publish now row (publish row.event_id) (with_sent row box) in
    let rest = publish_batch publish now rows next in
    if is_stalled (publish row.event_id) then next else rest

-- `tick`
unfoldable pub tick : (ℕ → PublishResult) → ℕ → ℕ → Outbox → Outbox
tick publish now service box =
    publish_batch publish now (take batch_size (by_time (select (is_due now service) box.rows))) box
