-- ===== src/Shared/Outbox/Laws.antt =====
-- How often packages/shared/src/outbox/index.ts gives an event to the broker.
use faktureringssystemet.Prelude.{
  ℕ, ◌≤◌, ◌≡◌, ap, inl, inr, false, some, List, [], ◌∷◌, arith, ◌==◌, is_some, select, take, All,
  Bool-cases, find_first, count_where,
}
use faktureringssystemet.Prelude.Rows.{count_found}
use faktureringssystemet.Shared.Outbox.{
  OutboxRow, Outbox, PublishResult, is_due, by_time, has_event, tick, batch_size,
}
use faktureringssystemet.Shared.Outbox.Batch.{
  times_sent, IsTallied, IsInOrder, IsReady, AreReady, publish_batch-IsInOrder,
}
use faktureringssystemet.Shared.Outbox.Order.{
  count_select, count_by_time, count_take, All-take, All-by_time,
}

-- The due rows of a part of the outbox, in which each is the one of its event.
due_rows :
    (now service : ℕ) (all part : List OutboxRow)
    → All (λ r. find_first (has_event r.event_id) all ≡ some r) part
    → All (IsReady all) (select (is_due now service) part)
due_rows now service all [] h = tt
due_rows now service all (r ∷ part) (h, hs) = elim (Bool-cases (is_due now service r)) [
  | inl t ↦ rw t ((h, ground (arith, t), ground (arith, t)), due_rows now service all part hs)
  | inr f ↦ rw f (due_rows now service all part hs)
]

below_other :
    (x : OutboxRow) (rows part : List OutboxRow)
    → count_where (has_event x.event_id) rows ≡ 0
    → All (λ r. find_first (has_event r.event_id) rows ≡ some r) part
    → All (λ r. find_first (has_event r.event_id) (x ∷ rows) ≡ some r) part
below_other x rows [] h a = tt
below_other x rows (r ∷ part) h (found, a) =
    let one =
      count_found (has_event r.event_id) (has_event r.event_id) rows {r = r} found (ground arith) in
    let other : (x.event_id == r.event_id) ≡ false = elim (Bool-cases (x.event_id == r.event_id)) [
      | inr f ↦ f
      | inl t ↦
          let same : r.event_id ≡ x.event_id = ground (arith, t) in
          let clash = ap (λ e. count_where (has_event e) rows) same in
          absurd (omega (arith, one, clash, h))
    ] in
    (rw other found, below_other x rows part h a)

own_rows :
    (rows : List OutboxRow)
    → ((e : ℕ) → count_where (has_event e) rows ≤ 1)
    → All (λ r. find_first (has_event r.event_id) rows ≡ some r) rows
own_rows [] u = tt
own_rows (x ∷ rows) u =
    let one = u x.event_id in
    let none_ : count_where (has_event x.event_id) rows ≡ 0 = ground (arith, one) in
    let rest = own_rows rows (λ e. let k = u e in ground (arith, k)) in
    (ground arith, below_other x rows rows none_ rest)

-- Rows of different events make a batch.
batch_AreReady :
    (rows batch : List OutboxRow)
    → ((e : ℕ) → count_where (has_event e) batch ≤ 1)
    → All (IsReady rows) batch
    → AreReady rows batch
batch_AreReady rows [] u a = tt
batch_AreReady rows (b ∷ batch) u (h, a) =
    let one = u b.event_id in
    (h, ground (arith, one), batch_AreReady rows batch (λ e. let k = u e in ground (arith, k)) a)

tick-IsInOrder :
    (publish : ℕ → PublishResult) (now service : ℕ) (box : Outbox)
    → IsInOrder box
    → IsInOrder (tick publish now service box)
unfolding tick
tick-IsInOrder publish now service box s =
    let due = select (is_due now service) box.rows in
    let ready = All-take (IsReady box.rows) batch_size (by_time due) (
      All-by_time (IsReady box.rows) due
        (due_rows now service box.rows box.rows (own_rows box.rows s.ids))) in
    publish_batch-IsInOrder publish now (take batch_size (by_time due)) box
      (batch_AreReady box.rows (take batch_size (by_time due))
        (λ e.
          let a = count_take (has_event e) batch_size (by_time due) in
          let b = count_by_time (has_event e) due in
          let c = count_select (has_event e) (is_due now service) box.rows in
          let d = s.ids e in omega (arith, a, b, c, d))
        ready)
      s

-- A tick of the publisher: what the broker answers, the time and the service.
pub record Tick : Type 0 where
  pub publish : ℕ → PublishResult
  pub now : ℕ
  pub service : ℕ

abbrev pub ticks : List Tick → Outbox → Outbox
ticks [] box = box
ticks (t ∷ ts) box = ticks ts (tick t.publish t.now t.service box)

ticks-IsInOrder : (ts : List Tick) (box : Outbox) → IsInOrder box → IsInOrder (ticks ts box)
ticks-IsInOrder [] box s = s
ticks-IsInOrder (t ∷ ts) box s =
    ticks-IsInOrder ts (tick t.publish t.now t.service box)
      (tick-IsInOrder t.publish t.now t.service box s)

abbrev IsSeldom : List ℕ → OutboxRow → Type 0
IsSeldom sent r = times_sent r.event_id sent ≤ 12

seldom : (sent : List ℕ) (r : OutboxRow) → IsTallied sent r → IsSeldom sent r
seldom sent r t = elim (Bool-cases (is_some r.failed_at)) [
  | inl failed ↦ ground (arith, t, failed)
  | inr waiting ↦ elim (Bool-cases (is_some r.published_at)) [
    | inl out ↦ ground (arith, t, waiting, out)
    | inr open_ ↦ ground (arith, t, waiting, open_)
  ]
]

IsTallied-IsSeldom :
    (sent : List ℕ) (rows : List OutboxRow) → All (IsTallied sent) rows → All (IsSeldom sent) rows
IsTallied-IsSeldom sent [] a = tt
IsTallied-IsSeldom sent (r ∷ rows) (t, ts) = (seldom sent r t, IsTallied-IsSeldom sent rows ts)

-- From an outbox on in which every row has an id of its own and says how often its event was given to the broker, after
-- any ticks whose batches are committed, whatever the broker answers: no event was given to it more than twelve times; a row was published after
-- exactly as many failed attempts as it says; and it is given up after exactly twelve attempts that failed, and no
-- sooner.
pub ticks_bounded :
    (ts : List Tick) (box : Outbox)
    → IsInOrder box
    → All (λ r. times_sent r.event_id (ticks ts box).sent ≤ 12) (ticks ts box).rows
      × IsInOrder (ticks ts box)
ticks_bounded ts box s =
    let after = ticks-IsInOrder ts box s in
    (IsTallied-IsSeldom (ticks ts box).sent (ticks ts box).rows after.tallied, after)
