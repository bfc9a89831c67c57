-- ===== src/Billing/Paging/Laws.antt =====
-- Ordering rows loses none, and pages of mapped rows are mapped pages.
use faktureringssystemet.Prelude.{
  ℕ, zero, suc, ◌≡◌, ◌∙◌, refl, ap, inl, inr, Bool, ◌&&◌, Option, List, [], ◌∷◌, arith, map, take,
  drop, length, ltb, select, count_where, Bool-cases,
}
use faktureringssystemet.Billing.Paging.{page_limit, insert_by, sort_by, page_at}

module _ {A : Type 0} where
  count_where-insert_by :
      (q : A → Bool) (before : A → A → Bool) (x : A) (xs : List A)
      → count_where q (insert_by before x xs) ≡ count_where q (x ∷ xs)
  count_where-insert_by q before x [] = refl
  count_where-insert_by q before x (y ∷ ys) =
      let rest = count_where-insert_by q before x ys in
      elim (Bool-cases (before x y)) [ inl t ↦ rw t refl | inr f ↦ rw (f, rest) (omega arith) ]

  -- Ordering rows neither adds nor loses any.
  pub count_where-sort_by :
      (q : A → Bool) (before : A → A → Bool) (xs : List A)
      → count_where q (sort_by before xs) ≡ count_where q xs
  unfolding sort_by
  count_where-sort_by q before [] = refl
  count_where-sort_by q before (x ∷ xs) =
      let rest = count_where-sort_by q before xs in
      count_where-insert_by q before x (sort_by before xs) ∙ omega (arith, rest)

  pub count_where-select :
      (q p : A → Bool) (xs : List A)
      → count_where q (select p xs) ≡ count_where (λ x. p x && q x) xs
  count_where-select q p [] = refl
  count_where-select q p (x ∷ xs) = ground (arith, count_where-select q p xs)

module _ {A B : Type 0} (f : A → B) where
  take-map : (n : ℕ) (xs : List A) → take n (map f xs) ≡ map f (take n xs)
  take-map zero xs = refl
  take-map (suc n) [] = refl
  take-map (suc n) (x ∷ xs) = ap (λ l. f x ∷ l) (take-map n xs)

  drop-map : (n : ℕ) (xs : List A) → drop n (map f xs) ≡ map f (drop n xs)
  drop-map zero xs = refl
  drop-map (suc n) [] = refl
  drop-map (suc n) (x ∷ xs) = drop-map n xs

  pub length-map : (xs : List A) → length (map f xs) ≡ length xs
  length-map [] = refl
  length-map (x ∷ xs) = omega (arith, length-map xs)

  pub page_at-map :
      (limit : Option ℕ) (offset : ℕ) (rows : List A)
      → let page = page_at limit offset rows in
        page_at limit offset (map f rows)
        ≡ record { items = map f page.items; has_more = page.has_more }
  unfolding page_at
  page_at-map limit offset rows =
      let n = page_limit limit in
      let window = ap (take (suc n)) (drop-map offset rows) ∙ take-map (suc n) (drop offset rows) in
      let items = ap (take n) window ∙ take-map n (take (suc n) (drop offset rows)) in
      let more =
        ap (λ l. ltb n (length l)) window
        ∙ ap (ltb n) (length-map (take (suc n) (drop offset rows))) in
      λ i. record { items = items i; has_more = more i }
