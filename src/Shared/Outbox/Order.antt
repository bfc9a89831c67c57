-- ===== src/Shared/Outbox/Order.antt =====
-- The choice and the order of the rows of a batch in packages/shared/src/outbox/index.ts.
use faktureringssystemet.Prelude.{
  ℕ, zero, suc, ◌≤◌, ◌≡◌, refl, inl, inr, Bool, List, [], ◌∷◌, arith, leb, select, take, All,
  Bool-cases, count_where,
}
use faktureringssystemet.Shared.Outbox.{OutboxRow, insert_by_time, by_time}

-- How often an event is among rows that are chosen, ordered or cut off.
pub count_select :
    (q p : OutboxRow → Bool) (rows : List OutboxRow)
    → count_where q (select p rows) ≤ count_where q rows
count_select q p [] = omega arith
count_select q p (r ∷ rows) = ground (arith, count_select q p rows)

count_insert :
    (q : OutboxRow → Bool) (r : OutboxRow) (rows : List OutboxRow)
    → count_where q (insert_by_time r rows) ≡ count_where q (r ∷ rows)
count_insert q r [] = refl
count_insert q r (x ∷ rows) = ground (arith, count_insert q r rows)

pub count_by_time :
    (q : OutboxRow → Bool) (rows : List OutboxRow)
    → count_where q (by_time rows) ≡ count_where q rows
count_by_time q [] = refl
count_by_time q (r ∷ rows) =
    let c = count_insert q r (by_time rows) in ground (arith, c, count_by_time q rows)

pub count_take :
    (q : OutboxRow → Bool) (n : ℕ) (rows : List OutboxRow)
    → count_where q (take n rows) ≤ count_where q rows
count_take q zero rows = omega arith
count_take q (suc n) [] = omega arith
count_take q (suc n) (r ∷ rows) = ground (arith, count_take q n rows)

module _ (P : OutboxRow → Type 0) where
  pub All-take : (n : ℕ) (rows : List OutboxRow) → All P rows → All P (take n rows)
  All-take zero rows h = tt
  All-take (suc n) [] h = tt
  All-take (suc n) (r ∷ rows) (h, hs) = (h, All-take n rows hs)

  All-insert :
      (r : OutboxRow) (rows : List OutboxRow) → P r → All P rows → All P (insert_by_time r rows)
  All-insert r [] h hs = (h, tt)
  All-insert r (x ∷ rows) h (k, ks) = elim (Bool-cases (leb r.occurred_at x.occurred_at)) [
    | inl t ↦ rw t (h, (k, ks))
    | inr f ↦ rw f (k, All-insert r rows h ks)
  ]

  pub All-by_time : (rows : List OutboxRow) → All P rows → All P (by_time rows)
  All-by_time [] h = tt
  All-by_time (r ∷ rows) (h, hs) = All-insert r (by_time rows) h (All-by_time rows hs)
