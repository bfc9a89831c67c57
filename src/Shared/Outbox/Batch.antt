-- ===== src/Shared/Outbox/Batch.antt =====
-- What a batch of packages/shared/src/outbox/index.ts does to the counts of attempts.
use faktureringssystemet.Prelude.{
  ℕ, suc, ◌+◌, ◌≤◌, ◌≡◌, ◌∙◌, refl, ap, inl, inr, Bool, true, false, ◌&&◌, not, some, List, [], ◌∷◌,
  arith, leb, ltb, ◌==◌, if◌then◌else◌, is_some, All, Bool-cases, find_first, update_where,
  count_where,
}
use faktureringssystemet.Prelude.Rows.{
  as_count, find_updated, count_where-update_where, update_where_none, All-find_first,
}
use faktureringssystemet.Shared.Outbox.{
  OutboxRow, Outbox, PublishResult, confirmed, timed_out, refused, max_attempts, has_event,
  as_published, as_failed, as_delayed, after_publish, with_sent, publish_batch, is_stalled,
}

abbrev pub times_sent : ℕ → List ℕ → ℕ
times_sent e sent = count_where (λ x. x == e) sent

-- A row says how often its event was given to the broker: as often as the attempts that failed, and once more when it
-- was published. It is given up when twelve attempts failed, and no sooner.
abbrev pub is_tallied : List ℕ → OutboxRow → Bool
is_tallied sent r =
    (times_sent r.event_id sent == r.attempts + as_count (is_some r.published_at))
    && (if is_some r.failed_at
        then r.attempts == 12 && not (is_some r.published_at)
        else ltb r.attempts 12)

abbrev pub IsTallied : List ℕ → OutboxRow → Type 0
IsTallied sent r = is_tallied sent r ≡ true

-- An outbox in which all rows are, and have ids of their own.
pub record IsInOrder (box : Outbox) : Type 0 where
  pub tallied : All (IsTallied box.sent) box.rows
  pub ids : (e : ℕ) → count_where (has_event e) box.rows ≤ 1

-- The outbox with a row changed and its event sent.
abbrev with_row : OutboxRow → (OutboxRow → OutboxRow) → Outbox → Outbox
with_row b f box = record {
  rows = update_where (has_event b.event_id) f box.rows;
  sent = b.event_id ∷ box.sent;
}

other-IsTallied :
    (e : ℕ) (sent : List ℕ) (r : OutboxRow)
    → (e == r.event_id) ≡ false
    → IsTallied sent r
    → IsTallied (e ∷ sent) r
other-IsTallied e sent r h t =
    let same : times_sent r.event_id (e ∷ sent) ≡ times_sent r.event_id sent = ground (arith, h) in
    rw same t

-- Rows of other events do not see that one is sent.
others-IsTallied :
    (e : ℕ) (sent : List ℕ) (rows : List OutboxRow)
    → count_where (has_event e) rows ≡ 0
    → All (IsTallied sent) rows
    → All (IsTallied (e ∷ sent)) rows
others-IsTallied e sent [] h a = tt
others-IsTallied e sent (r ∷ rows) h (t, ts) =
    let other : (e == r.event_id) ≡ false = ground (arith, h) in
    (other-IsTallied e sent r other t, others-IsTallied e sent rows (ground (arith, h)) ts)

same_rows : (P : OutboxRow → Type 0) {xs ys : List OutboxRow} → xs ≡ ys → All P ys → All P xs
same_rows P e a = rw e a

-- One row changes with the event that is sent, and the others stay.
one-IsTallied :
    (b : OutboxRow) (sent : List ℕ) (f : OutboxRow → OutboxRow) (rows : List OutboxRow)
    → count_where (has_event b.event_id) rows ≤ 1
    → find_first (has_event b.event_id) rows ≡ some b
    → IsTallied (b.event_id ∷ sent) (f b)
    → All (IsTallied sent) rows
    → All (IsTallied (b.event_id ∷ sent)) (update_where (has_event b.event_id) f rows)
one-IsTallied b sent f [] one found k a = tt
one-IsTallied b sent f (r ∷ rows) one found k (t, ts) = elim (Bool-cases (has_event b.event_id r)) [
  | inl own ↦
      let same : r ≡ b = ground (arith, own, found) in
      let none_ : count_where (has_event b.event_id) rows ≡ 0 = ground (arith, own, one) in
      let rest = others-IsTallied b.event_id sent rows none_ ts in
      let kept : update_where (has_event b.event_id) f rows ≡ rows =
        update_where_none (has_event b.event_id) f rows none_ in
      let all : update_where (has_event b.event_id) f (r ∷ rows) ≡ f b ∷ rows =
        rw (own, kept, same) refl in
      same_rows (IsTallied (b.event_id ∷ sent)) all (k, rest)
  | inr other ↦
      let apart : (b.event_id == r.event_id) ≡ false = ground (arith, other) in
      let all : update_where (has_event b.event_id) f (r ∷ rows)
          ≡ r ∷ update_where (has_event b.event_id) f rows =
        rw other refl in
      same_rows (IsTallied (b.event_id ∷ sent)) all (
        other-IsTallied b.event_id sent r apart t,
        one-IsTallied b sent f rows (ground (arith, other, one)) (ground (arith, other, found)) k
            ts,
      )
]

-- A row that is still to be published, as the outbox has it.
abbrev pub IsReady : List OutboxRow → OutboxRow → Type 0
IsReady rows b =
    (find_first (has_event b.event_id) rows ≡ some b)
    × (is_some b.published_at ≡ false)
    × (is_some b.failed_at ≡ false)

-- A batch of such rows, of different events.
abbrev pub AreReady : List OutboxRow → List OutboxRow → Type 0
AreReady rows [] = Unit
AreReady rows (b ∷ batch) =
    IsReady rows b × (count_where (has_event b.event_id) batch ≡ 0) × AreReady rows batch

updated_AreReady :
    (e : ℕ) (f : OutboxRow → OutboxRow) (rows batch : List OutboxRow)
    → ((r : OutboxRow) → (f r).event_id ≡ r.event_id)
    → count_where (has_event e) batch ≡ 0
    → AreReady rows batch
    → AreReady (update_where (has_event e) f rows) batch
updated_AreReady e f rows [] same h k = tt
updated_AreReady e f rows (b ∷ batch) same h ((found, open_, kept), own, rest) =
    let other : has_event e b ≡ false = ground (arith, h) in
    let at =
      find_updated (has_event b.event_id) (has_event e) f rows
        (λ r. ap (λ i. i == b.event_id) (same r)) found in
    (
      (at ∙ rw other refl, open_, kept),
      own,
      updated_AreReady e f rows batch same (ground (arith, h)) rest,
    )

-- What publishing one row comes to.
published-IsInOrder :
    (b : OutboxRow) (f : OutboxRow → OutboxRow) (box : Outbox)
    → ((r : OutboxRow) → (f r).event_id ≡ r.event_id)
    → IsTallied (b.event_id ∷ box.sent) (f b)
    → IsReady box.rows b
    → IsInOrder box
    → IsInOrder (with_row b f box)
published-IsInOrder b f box same k (found, open_, kept) s = record {
  tallied = one-IsTallied b box.sent f box.rows (s.ids b.event_id) found k s.tallied;
  ids = λ e.
      let c =
        count_where-update_where (has_event e) (has_event b.event_id) f box.rows
          (λ r. ap (λ i. i == e) (same r)) in
      let one = s.ids e in omega (arith, c, one);
}

-- A ready row is tallied, and has been tried fewer than twelve times.
ready_row :
    (sent : List ℕ) (rows : List OutboxRow) (b : OutboxRow)
    → All (IsTallied sent) rows
    → IsReady rows b
    → IsTallied sent b
ready_row sent rows b a (found, open_, kept) =
    All-find_first (IsTallied sent) (has_event b.event_id) rows a found

failed_one :
    (now : ℕ) (b : OutboxRow) (box : Outbox)
    → IsInOrder box
    → IsReady box.rows b
    → (f : OutboxRow → OutboxRow) × ((r : OutboxRow) → (f r).event_id ≡ r.event_id)
      × IsTallied (b.event_id ∷ box.sent) (f b)
      × (after_publish now b refused (with_sent b box) ≡ with_row b f box)
failed_one now b box s (found, open_, kept) =
    let t = ready_row box.sent box.rows b s.tallied (found, open_, kept) in
    elim (Bool-cases (leb max_attempts (suc b.attempts))) [
      | inl last ↦ (
        as_failed now (suc b.attempts),
        (λ r. refl),
        ground (arith, t, open_, kept, last),
        rw last refl,
      )
      | inr more ↦ (
        as_delayed now b.attempts (suc b.attempts),
        (λ r. refl),
        ground (arith, t, open_, kept, more),
        rw more refl,
      )
    ]

-- The outbox after one row of the batch, as an update of that row.
after_one :
    (now : ℕ) (b : OutboxRow) (answer : PublishResult) (box : Outbox)
    → IsInOrder box
    → IsReady box.rows b
    → (f : OutboxRow → OutboxRow) × ((r : OutboxRow) → (f r).event_id ≡ r.event_id)
      × IsTallied (b.event_id ∷ box.sent) (f b)
      × (after_publish now b answer (with_sent b box) ≡ with_row b f box)
after_one now b confirmed box s (found, open_, kept) =
    let t = ready_row box.sent box.rows b s.tallied (found, open_, kept) in
    (as_published now, (λ r. refl), ground (arith, t, open_, kept), refl)
after_one now b timed_out box s ready = failed_one now b box s ready
after_one now b refused box s ready = failed_one now b box s ready

pub publish_batch-IsInOrder :
    (publish : ℕ → PublishResult) (now : ℕ) (batch : List OutboxRow) (box : Outbox)
    → AreReady box.rows batch
    → IsInOrder box
    → IsInOrder (publish_batch publish now batch box)
unfolding publish_batch
publish_batch-IsInOrder publish now [] box b s = s
publish_batch-IsInOrder publish now (row ∷ batch) box (ready, own, b) s =
    let (f, same, k, e) = after_one now row (publish row.event_id) box s ready in
    let next = published-IsInOrder row f box same k ready s in
    elim (Bool-cases (is_stalled (publish row.event_id))) [
      | inl stalled ↦ rw (stalled, e) next
      | inr on ↦
          rw (on, e)
            (publish_batch-IsInOrder publish now batch _
              (updated_AreReady row.event_id f box.rows batch same own b) next)
    ]
