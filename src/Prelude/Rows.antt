-- ===== src/Prelude/Rows.antt =====
-- How counting, finding and properties of rows fare under updates and deletions of rows.
use Prim.Native.Nat.{ℕ, ◌+◌, ◌≤◌, ◌<◌}
use mathlib.Core.Path.{◌≡◌, refl}
use mathlib.Core.Bool.{Bool, true, false}
use mathlib.Core.Logic.{inl, inr}
use mathlib.Core.Option.{none, some}
use mathlib.Core.List.{List, [], ◌∷◌, ◌++◌}
use native.Mathlib.Omega.{arith}
use faktureringssystemet.Prelude.Tests.{if◌then◌else◌, Bool-cases}
use mathlib.Core.Bool.{◌&&◌, not}
use faktureringssystemet.Prelude.Lists.{
  find_first, select, update_where, delete_where, count_where, length, All,
}

abbrev pub as_count : Bool → ℕ
as_count b = if b then 1 else 0

module _ {ℓ} {A : Type ℓ} where
  pub count_where-update_where :
      (q p : A → Bool) (f : A → A) (xs : List A)
      → ((x : A) → q (f x) ≡ q x)
      → count_where q (update_where p f xs) ≡ count_where q xs
  count_where-update_where q p f [] h = refl
  count_where-update_where q p f (x ∷ xs) h =
      ground (arith, h x, count_where-update_where q p f xs h)

  pub count_where_mono :
      (q p : A → Bool) (xs : List A)
      → ((x : A) → q x ≡ true → p x ≡ true)
      → count_where q xs ≤ count_where p xs
  count_where_mono q p [] h = omega arith
  count_where_mono q p (x ∷ xs) h = ground (arith, h x, count_where_mono q p xs h)

  pub update_where_none :
      (p : A → Bool) (f : A → A) (xs : List A) → count_where p xs ≡ 0 → update_where p f xs ≡ xs
  update_where_none p f [] h = refl
  update_where_none p f (x ∷ xs) h = ground (arith, update_where_none p f xs)

  -- An update of one row changes a count by that row.
  pub count_update_one :
      (q p : A → Bool) (f : A → A) (xs : List A) (r : A)
      → count_where p xs ≤ 1
      → find_first p xs ≡ some r
      → count_where q (update_where p f xs) + as_count (q r) ≡ count_where q xs + as_count (q (f r))
  count_update_one q p f [] r u h = absurd (ground arith)
  count_update_one q p f (x ∷ xs) r u h = elim (Bool-cases (p x)) [
    | inl t ↦
        let same : x ≡ r = ground arith in
        let rest : update_where p f xs ≡ xs = update_where_none p f xs (ground arith) in
        rw (t, rest, same) (omega arith)
    | inr t ↦ ground (arith, count_update_one q p f xs r (ground arith) (ground arith))
  ]

  pub count_where-delete_where :
      (q p : A → Bool) (xs : List A) → count_where q (delete_where p xs) ≤ count_where q xs
  count_where-delete_where q p [] = omega arith
  count_where-delete_where q p (x ∷ xs) = ground (arith, count_where-delete_where q p xs)

  delete_where_none : (p : A → Bool) (xs : List A) → count_where p xs ≡ 0 → delete_where p xs ≡ xs
  delete_where_none p [] h = refl
  delete_where_none p (x ∷ xs) h = ground (arith, delete_where_none p xs)

  -- The deletion of one row lowers a count by that row.
  pub count_delete_one :
      (q p : A → Bool) (xs : List A) (r : A)
      → count_where p xs ≤ 1
      → find_first p xs ≡ some r
      → count_where q (delete_where p xs) + as_count (q r) ≡ count_where q xs
  count_delete_one q p [] r u h = absurd (ground arith)
  count_delete_one q p (x ∷ xs) r u h = elim (Bool-cases (p x)) [
    | inl t ↦
        let same : x ≡ r = ground arith in
        let rest : delete_where p xs ≡ xs = delete_where_none p xs (ground arith) in
        rw (t, rest, same) (omega arith)
    | inr t ↦ ground (arith, count_delete_one q p xs r (ground arith) (ground arith))
  ]

  pub find_first-append_none :
      (p : A → Bool) (xs ys : List A)
      → find_first p xs ≡ none
      → find_first p (xs ++ ys) ≡ find_first p ys
  find_first-append_none p [] ys h = refl
  find_first-append_none p (x ∷ xs) ys h = ground (arith, find_first-append_none p xs ys)

  -- The row that a test finds, after an update that keeps the test.
  pub find_updated :
      (q p : A → Bool) (f : A → A) (xs : List A) {r : A}
      → ((x : A) → q (f x) ≡ q x)
      → find_first q xs ≡ some r
      → find_first q (update_where p f xs) ≡ some (if p r then f r else r)
  find_updated q p f [] h k = absurd (ground arith)
  find_updated q p f (x ∷ xs) {r} h k = ground (arith, h x, find_updated q p f xs {r = r} h)

  -- A count that the update of the rows it hits does not change.
  pub count_where-update_hit :
      (q p : A → Bool) (f : A → A) (xs : List A)
      → ((x : A) → p x ≡ true → q (f x) ≡ q x)
      → count_where q (update_where p f xs) ≡ count_where q xs
  count_where-update_hit q p f [] h = refl
  count_where-update_hit q p f (x ∷ xs) h = ground (arith, h x, count_where-update_hit q p f xs h)

  -- An update that takes the rows it hits out of a count leaves the count of the others.
  pub count_where-update_gone :
      (q p : A → Bool) (f : A → A) (xs : List A)
      → ((x : A) → p x ≡ true → q (f x) ≡ false)
      → count_where q (update_where p f xs) ≡ count_where (λ x. q x && not (p x)) xs
  count_where-update_gone q p f [] h = refl
  count_where-update_gone q p f (x ∷ xs) h =
      let rest = count_where-update_gone q p f xs h in ground (arith, h x, rest)

  -- What a test counts after an update, at most.
  pub count_where-update_most :
      (q p : A → Bool) (f : A → A) (xs : List A)
      → count_where q (update_where p f xs)
        ≤ count_where (λ x. q x && not (p x)) xs + count_where p xs
  count_where-update_most q p f [] = omega arith
  count_where-update_most q p f (x ∷ xs) =
      let rest = count_where-update_most q p f xs in ground (arith, rest)

  -- What a test that the update keeps finds was there, as it is or before the update.
  pub found_updated :
      (p : A → Bool) (f : A → A) (xs : List A) (r : A)
      → ((x : A) → p (f x) ≡ p x)
      → find_first p (update_where p f xs) ≡ some r
      → (s : A) × (r ≡ f s)
  found_updated p f [] r h k = absurd (ground arith)
  found_updated p f (x ∷ xs) r h k = elim (Bool-cases (p x)) [
    | inl t ↦ (x, let e = h x in ground arith)
    | inr t ↦ found_updated p f xs r h (ground arith)
  ]

  pub find_none_updated :
      (q p : A → Bool) (f : A → A) (xs : List A)
      → ((x : A) → q (f x) ≡ q x)
      → find_first q xs ≡ none
      → find_first q (update_where p f xs) ≡ none
  find_none_updated q p f [] h k = refl
  find_none_updated q p f (x ∷ xs) h k = ground (arith, h x, find_none_updated q p f xs h)

  pub find_kept :
      (q p : A → Bool) (xs : List A) {r : A}
      → ((x : A) → p x ≡ true → q x ≡ false)
      → find_first q xs ≡ some r
      → find_first q (delete_where p xs) ≡ some r
  find_kept q p [] h k = absurd (ground arith)
  find_kept q p (x ∷ xs) {r} h k = ground (arith, h x, find_kept q p xs {r = r} h)

  -- A test that is stricter, and fails a row that is there, counts less.
  pub count_where_strict :
      (p q q' : A → Bool) (xs : List A) {r : A}
      → ((x : A) → q' x ≡ true → q x ≡ true)
      → find_first p xs ≡ some r
      → q r ≡ true
      → q' r ≡ false
      → count_where q' xs < count_where q xs
  count_where_strict p q q' [] h k t f = absurd (ground arith)
  count_where_strict p q q' (x ∷ xs) {r} h k t f = elim (Bool-cases (p x)) [
    | inl e ↦
        let same : x ≡ r = ground arith in
        let rest = count_where_mono q' q xs h in
        let t' : q x ≡ true = rw same t in
        let f' : q' x ≡ false = rw same f in rw (t', f') (omega (arith, rest))
    | inr e ↦
        let rest = count_where_strict p q q' xs {r = r} h (ground arith) t f in
        let here = h x in ground arith
  ]

  pub count_where-length : (p : A → Bool) (xs : List A) → count_where p xs ≤ length xs
  count_where-length p [] = omega arith
  count_where-length p (x ∷ xs) = ground (arith, count_where-length p xs)

  pub count_none : (p : A → Bool) (xs : List A) → find_first p xs ≡ none → count_where p xs ≡ 0
  count_none p [] h = refl
  count_none p (x ∷ xs) h = ground (arith, count_none p xs)

  -- A row that any test finds counts where it passes another.
  pub count_found :
      (q h : A → Bool) (xs : List A) {r : A}
      → find_first q xs ≡ some r
      → h r ≡ true
      → 1 ≤ count_where h xs
  count_found q h [] k t = absurd (ground arith)
  count_found q h (x ∷ xs) {r} k t = elim (Bool-cases (q x)) [
    | inl e ↦ let same : x ≡ r = ground arith in rw same (ground arith)
    | inr e ↦ let c = count_found q h xs {r = r} (ground arith) t in omega (arith, c)
  ]

  -- A row that any test finds is the one that a test of a unique key finds, if it passes that.
  pub found_by_key :
      (q h : A → Bool) (xs : List A) {r : A}
      → count_where h xs ≤ 1
      → find_first q xs ≡ some r
      → h r ≡ true
      → find_first h xs ≡ some r
  found_by_key q h [] u k t = absurd (ground arith)
  found_by_key q h (x ∷ xs) {r} u k t = elim (Bool-cases (q x)) [
    | inl e ↦ let same : x ≡ r = ground arith in ground arith
    | inr e ↦
        let c = count_found q h xs {r = r} (ground arith) t in
        let f = found_by_key q h xs {r = r} (ground arith) (ground arith) t in ground arith
  ]

  -- A selection does not see updates and deletions of rows outside of it.
  pub select-update_where :
      (q p : A → Bool) (f : A → A) (xs : List A)
      → ((x : A) → p x ≡ true → q x ≡ false)
      → ((x : A) → q (f x) ≡ q x)
      → select q (update_where p f xs) ≡ select q xs
  select-update_where q p f [] h k = refl
  select-update_where q p f (x ∷ xs) h k =
      let rest = select-update_where q p f xs h k in ground (arith, h x, k x, rest)

  -- A selection of which no row is hit does not see the update.
  pub select-update_none :
      (q p : A → Bool) (f : A → A) (xs : List A)
      → count_where (λ x. q x && p x) xs ≡ 0
      → ((x : A) → q (f x) ≡ q x)
      → select q (update_where p f xs) ≡ select q xs
  select-update_none q p f [] h k = refl
  select-update_none q p f (x ∷ xs) h k =
      let rest = select-update_none q p f xs in ground (arith, k x, k, rest)

  pub select-delete_where :
      (q p : A → Bool) (xs : List A)
      → ((x : A) → p x ≡ true → q x ≡ false)
      → select q (delete_where p xs) ≡ select q xs
  select-delete_where q p [] h = refl
  select-delete_where q p (x ∷ xs) h =
      let rest = select-delete_where q p xs h in ground (arith, h x, rest)

  pub select-append_other :
      (q : A → Bool) (xs : List A) (x : A) → q x ≡ false → select q (xs ++ x ∷ []) ≡ select q xs
  select-append_other q [] x h = ground arith
  select-append_other q (y ∷ xs) x h =
      let rest = select-append_other q xs x h in ground (arith, rest)

module _ {ℓ κ} {A : Type ℓ} (P : A → Type κ) where
  pub All-update_where :
      (p : A → Bool) (f : A → A) (xs : List A)
      → ((x : A) → P x → P (f x))
      → All P xs
      → All P (update_where p f xs)
  All-update_where p f [] h k = tt
  All-update_where p f (x ∷ xs) h (k, ks) = elim (Bool-cases (p x)) [
    | inl t ↦ rw t (h x k, All-update_where p f xs h ks)
    | inr t ↦ rw t (k, All-update_where p f xs h ks)
  ]

  pub All-delete_where : (p : A → Bool) (xs : List A) → All P xs → All P (delete_where p xs)
  All-delete_where p [] k = tt
  All-delete_where p (x ∷ xs) (k, ks) = elim (Bool-cases (p x)) [
    | inl t ↦ rw t (All-delete_where p xs ks)
    | inr t ↦ rw t (k, All-delete_where p xs ks)
  ]

  pub All-find_first :
      (p : A → Bool) (xs : List A) {r : A} → All P xs → find_first p xs ≡ some r → P r
  All-find_first p [] k h = absurd (ground arith)
  All-find_first p (x ∷ xs) {r} (k, ks) h = elim (Bool-cases (p x)) [
    | inl t ↦ let same : x ≡ r = ground arith in rw (← same) k
    | inr t ↦ All-find_first p xs ks (ground arith)
  ]

  -- An update of one row keeps a property of all, if it keeps it of that row.
  pub All-update_one :
      (p : A → Bool) (f : A → A) (xs : List A) (r : A)
      → count_where p xs ≤ 1
      → find_first p xs ≡ some r
      → (P r → P (f r))
      → All P xs
      → All P (update_where p f xs)
  All-update_one p f [] r u h k a = tt
  All-update_one p f (x ∷ xs) r u h k (a, as_) = elim (Bool-cases (p x)) [
    | inl t ↦
        let same : x ≡ r = ground arith in
        let rest : update_where p f xs ≡ xs = update_where_none p f xs (ground arith) in
        rw (t, rest, same) (k (rw (← same) a), as_)
    | inr t ↦ rw t (a, All-update_one p f xs r (ground arith) (ground arith) k as_)
  ]
