-- ===== src/Apps/OffsetList/Laws.antt =====
-- What apps/backoffice/src/lib/useOffsetList.ts has read in the end, from the pages of services/billing.
use faktureringssystemet.Prelude.{
  ℕ, zero, suc, true, false, ◌+◌, ◌≤◌, ◌<◌, ◌≡◌, ◌∙◌, refl, sym, ap, inl, inr, Option, List, [],
  ◌∷◌, ◌++◌, arith, take, drop, length, ltb, ltb→lt, if◌then◌else◌, Bool, none, some, Bool-cases,
  length-take-suc, length-take_full, take-take-suc, drop-drop, take-drop, append_assoc,
  length-append,
}
use faktureringssystemet.Billing.Paging.{Page, page_limit, page_at}
use faktureringssystemet.Apps.OffsetList.{count_items, flat_items, load_pages}

module _ {A : Type 0} where
  append_nil : (xs : List A) → xs ++ [] ≡ xs
  append_nil [] = refl
  append_nil (x ∷ xs) = ap (λ l. x ∷ l) (append_nil xs)

  count_items-append :
      (ps : List (Page A)) (p : Page A)
      → count_items (ps ++ p ∷ []) ≡ count_items ps + length p.items
  count_items-append [] p = omega arith
  count_items-append (q ∷ ps) p = omega (arith, count_items-append ps p)

  flat_items-append :
      (ps : List (Page A)) (p : Page A) → flat_items (ps ++ p ∷ []) ≡ flat_items ps ++ p.items
  flat_items-append [] p = append_nil p.items
  flat_items-append (q ∷ ps) p =
      ap (λ l. q.items ++ l) (flat_items-append ps p)
      ∙ sym (append_assoc q.items (flat_items ps) p.items)

  -- What comes after a page depends on whether there is more.
  read_on :
      (fetch_page : ℕ → Page A) (fuel offset : ℕ) (pages : List (Page A)) {b : Bool}
      → (fetch_page offset).has_more ≡ b
      → load_pages fetch_page (suc fuel) offset pages
        ≡ elim (if b then some (count_items (pages ++ fetch_page offset ∷ [])) else none)
            as (λ o. List (Page A)) [
              | none ↦ pages ++ fetch_page offset ∷ []
              | some next ↦ load_pages fetch_page fuel next (pages ++ fetch_page offset ∷ [])
            ]
  unfolding load_pages
  read_on fetch_page fuel offset pages h =
      ap
        (λ b.
          elim (if b then some (count_items (pages ++ fetch_page offset ∷ [])) else none)
            as (λ o. List (Page A)) [
              | none ↦ pages ++ fetch_page offset ∷ []
              | some next ↦ load_pages fetch_page fuel next (pages ++ fetch_page offset ∷ [])
            ])
        h

  load_last :
      (fetch_page : ℕ → Page A) (fuel offset : ℕ) (pages : List (Page A))
      → (fetch_page offset).has_more ≡ false
      → load_pages fetch_page (suc fuel) offset pages ≡ pages ++ fetch_page offset ∷ []
  load_last fetch_page fuel offset pages h = read_on fetch_page fuel offset pages h

  load_more :
      (fetch_page : ℕ → Page A) (fuel offset : ℕ) (pages : List (Page A))
      → (fetch_page offset).has_more ≡ true
      → load_pages fetch_page (suc fuel) offset pages
        ≡ load_pages fetch_page fuel
            (count_items (pages ++ fetch_page offset ∷ []))
            (pages ++ fetch_page offset ∷ [])
  load_more fetch_page fuel offset pages h = read_on fetch_page fuel offset pages h

  page_at-items :
      (limit : Option ℕ) (offset : ℕ) (rows : List A)
      → (page_at limit offset rows).items ≡ take (page_limit limit) (drop offset rows)
  unfolding page_at
  page_at-items limit offset rows = take-take-suc (page_limit limit) (drop offset rows)

  page_at-has_more :
      (limit : Option ℕ) (offset : ℕ) (rows : List A)
      → (page_at limit offset rows).has_more
        ≡ ltb (page_limit limit) (length (take (suc (page_limit limit)) (drop offset rows)))
  unfolding page_at
  page_at-has_more limit offset rows = refl

  length-split : (n : ℕ) (xs : List A) → length (take n xs) + length (drop n xs) ≡ length xs
  length-split n xs = sym (length-append (take n xs) (drop n xs)) ∙ ap length (take-drop n xs)

  -- Reading goes on from any place where what was read and what is left make up the rows.
  load_pages_rest :
      (limit : Option ℕ) (rows : List A) (fuel offset : ℕ) (pages : List (Page A))
      → 1 ≤ page_limit limit
      → flat_items pages ++ drop offset rows ≡ rows
      → count_items pages ≡ offset
      → length (drop offset rows) < fuel
      → flat_items (load_pages (λ o. page_at limit o rows) fuel offset pages) ≡ rows
  load_pages_rest limit rows zero offset pages positive whole read enough =
      absurd (omega (arith, enough))
  load_pages_rest limit rows (suc fuel) offset pages positive whole read enough =
      let n = page_limit limit in
      let left = drop offset rows in
      let page = page_at limit offset rows in
      let items = page_at-items limit offset rows in
      let flat : flat_items (pages ++ page ∷ []) ≡ flat_items pages ++ take n left =
        flat_items-append pages page ∙ ap (λ l. flat_items pages ++ l) items in
      elim (Bool-cases (ltb n (length (take (suc n) left)))) [
        | inr last ↦
            let all : take n left ≡ left = length-take-suc n left (ground (arith, last)) in
            ap flat_items (
              load_last (λ o. page_at limit o rows) fuel offset pages
                (page_at-has_more limit offset rows ∙ last))
            ∙ flat
            ∙ ap (λ l. flat_items pages ++ l) all
            ∙ whole
        | inl more ↦
            let full : length (take n left) ≡ n =
              length-take_full n left (ltb→lt n (length (take (suc n) left)) more) in
            let split = length-split n left in
            let shorter = drop-drop n offset rows in
            let next : count_items (pages ++ page ∷ []) ≡ offset + n =
              count_items-append pages page ∙ omega (arith, read, ap length items, full) in
            let whole' : flat_items (pages ++ page ∷ []) ++ drop (offset + n) rows ≡ rows =
              ap (λ l. l ++ drop (offset + n) rows) flat
              ∙ append_assoc (flat_items pages) (take n left) (drop (offset + n) rows)
              ∙ ap (λ l. flat_items pages ++ (take n left ++ l)) (sym shorter)
              ∙ ap (λ l. flat_items pages ++ l) (take-drop n left)
              ∙ whole in
            let enough' : length (drop (offset + n) rows) < fuel =
              omega (arith, split, full, ap length shorter, enough, positive) in
            ap flat_items (
              load_more (λ o. page_at limit o rows) fuel offset pages
                (page_at-has_more limit offset rows ∙ more))
            ∙ ap
                (λ o.
                  flat_items (load_pages (λ k. page_at limit k rows) fuel o (pages ++ page ∷ [])))
                next
            ∙ load_pages_rest limit rows fuel (offset + n) (pages ++ page ∷ []) positive whole' next
                enough'
      ]

  -- Pages of any size from 1 to the greatest allowed, read one after the other until there is no more, are together
  -- all the rows, each once and in their order.
  pub load_pages_all :
      (limit : Option ℕ) (rows : List A)
      → 1 ≤ page_limit limit
      → flat_items (load_pages (λ o. page_at limit o rows) (suc (length rows)) 0 []) ≡ rows
  load_pages_all limit rows positive =
      load_pages_rest limit rows (suc (length rows)) 0 [] positive refl refl (omega arith)
