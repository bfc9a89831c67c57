-- ===== src/Billing/Invoices/Resolve/Laws.antt =====
-- Where the chain of reminders in services/billing/src/invoices/services.ts ends.
use faktureringssystemet.Prelude.{
  ℕ, zero, suc, ◌<◌, ◌≡◌, ◌⊎◌, refl, inl, inr, Bool, true, false, not, none, some, List, [], ◌∷◌,
  arith, ◌==◌, find_first, count_where, Bool-cases, Option-cases,
}
use faktureringssystemet.Prelude.Rows.{count_where_strict, count_where-length}
use faktureringssystemet.Shared.Text.{Text}
use faktureringssystemet.Shared.Errors.{ok}
use faktureringssystemet.Billing.Store.{InvoiceRow, Db}
use faktureringssystemet.Billing.Invoices.Repository.{is_invoice, paid_of, paid_ore}
use faktureringssystemet.Billing.Invoices.Resolve.{
  has_ocr, successor_of, visited, next_of, resolve_current, enough, resolved_as, resolve_from,
  find_by_ocr, resolve_by_ocr,
}

-- The invoices on the way from one invoice, each the one that the last says replaced it.
pub data Chain (t : ℕ) (db : Db) (start : InvoiceRow) : InvoiceRow → Type 0 where
  here : Chain t db start start
  onwards :
      {r : InvoiceRow}
      → Chain t db start r
      → (i : ℕ) (s : InvoiceRow) → successor_of r ≡ some i
      → find_first (is_invoice t i) db.invoices ≡ some s
      → Chain t db start s

-- The last invoice was not replaced, or by one that is not there, or by one that is on the way already.
abbrev pub IsEnd : ℕ → Db → InvoiceRow → InvoiceRow → Type 0
IsEnd t db start r =
    (successor_of r ≡ none)
    ⊎ ((i : ℕ) × (successor_of r ≡ some i) × (find_first (is_invoice t i) db.invoices ≡ none))
    ⊎ ((i : ℕ) × (s x : InvoiceRow) × (successor_of r ≡ some i)
        × (find_first (is_invoice t i) db.invoices ≡ some s)
        × Chain t db start x
        × (x.id ≡ s.id))

abbrev unvisited : List ℕ → InvoiceRow → Bool
unvisited guard r = not (visited guard r.id)

-- A step goes to an invoice that is there and was not visited.
next_of-cases :
    (t : ℕ) (db : Db) (guard : List ℕ) (r : InvoiceRow)
    → ((next_of t db guard r ≡ none)
        × ((successor_of r ≡ none)
            ⊎ ((i : ℕ) × (successor_of r ≡ some i)
                × (find_first (is_invoice t i) db.invoices ≡ none))
            ⊎ ((i : ℕ) × (s : InvoiceRow) × (successor_of r ≡ some i)
                × (find_first (is_invoice t i) db.invoices ≡ some s)
                × (visited guard s.id ≡ true))))
      ⊎ ((i : ℕ) × (s : InvoiceRow) × (next_of t db guard r ≡ some s)
          × (successor_of r ≡ some i)
          × (find_first (is_invoice t i) db.invoices ≡ some s)
          × (visited guard s.id ≡ false))
next_of-cases t db guard r = elim (Option-cases (successor_of r)) [
  | inl last ↦ inl (rw last refl, inl last)
  | inr (i, on) ↦ elim (Option-cases (find_first (is_invoice t i) db.invoices)) [
    | inl missing ↦ inl (rw (on, missing) refl, inr (inl (i, on, missing)))
    | inr (s, found) ↦ elim (Bool-cases (visited guard s.id)) [
      | inl old ↦ inl (rw (on, found, old) refl, inr (inr (i, s, on, found, old)))
      | inr new ↦ inr (i, s, rw (on, found, new) refl, on, found, new)
    ]
  ]
]

module _ (t : ℕ) (db : Db) (start : InvoiceRow) where
  -- Each visited id is that of an invoice on the way.
  abbrev OnTheWay : List ℕ → Type 0
  OnTheWay guard =
      (i : ℕ) → visited guard i ≡ true → (x : InvoiceRow) × Chain t db start x × (x.id ≡ i)

  OnTheWay-grows :
      (guard : List ℕ) (s : InvoiceRow)
      → OnTheWay guard
      → Chain t db start s
      → OnTheWay (s.id ∷ guard)
  OnTheWay-grows guard s w c i h = elim (Bool-cases (s.id == i)) [
    | inl same ↦ (s, c, ground arith)
    | inr other ↦ w i (ground arith)
  ]

  current_ends :
      (fuel : ℕ) (guard : List ℕ) (r : InvoiceRow)
      → Chain t db start r
      → OnTheWay guard
      → count_where (unvisited guard) db.invoices < fuel
      → (e : InvoiceRow) × (resolve_current fuel t db guard r ≡ some e)
        × Chain t db start e
        × IsEnd t db start e
  unfolding resolve_current
  current_ends zero guard r c w h = absurd (omega (arith, h))
  current_ends (suc fuel) guard r c w h = elim (next_of-cases t db guard r) [
    | inl (stop, why) ↦ (
      r,
      rw (resolve_current, stop) refl,
      c,
      elim why [
        | inl last ↦ inl last
        | inr (inl gone) ↦ inr (inl gone)
        | inr (inr (i, s, on, found, old)) ↦
            let (x, way, same) = w s.id old in inr (inr (i, s, x, on, found, way, same))
      ],
    )
    | inr (i, s, go, on, found, new) ↦
        let way = onwards c i s on found in
        let fewer =
          count_where_strict (is_invoice t i) (unvisited guard) (unvisited (s.id ∷ guard))
            db.invoices (λ x k. ground arith) found (ground arith) (ground arith) in
        let (e, same, last, end) =
          current_ends fuel (s.id ∷ guard) s way (OnTheWay-grows guard s w way)
            (omega (arith, fewer, h)) in
        (e, rw (resolve_current, go) same, last, end)
  ]

  resolve_current_ends :
      (e : InvoiceRow) × (resolve_current (enough db) t db (start.id ∷ []) start ≡ some e)
      × Chain t db start e
      × IsEnd t db start e
  resolve_current_ends =
      let all = count_where-length (unvisited (start.id ∷ [])) db.invoices in
      current_ends (enough db) (start.id ∷ []) start here (λ i h. (start, here, ground arith))
        (omega (arith, all))

-- A payment reference that an invoice of the tenant has is always answered, also if invoices replaced
-- each other in a circle: the answer is about the last invoice on the way from the one that has the
-- reference, with what is paid and what remains of that one.
pub resolve_by_ocr_ends :
    (t : ℕ) (ocr : Text) (db : Db) (matched : InvoiceRow)
    → find_first (has_ocr t ocr) db.invoices ≡ some matched
    → (e : InvoiceRow) × (resolve_by_ocr t ocr db ≡ ok (resolved_as e (paid_of t e.id db), db))
      × Chain t db matched e
      × IsEnd t db matched e
unfolding resolve_by_ocr find_by_ocr resolve_from paid_ore
resolve_by_ocr_ends t ocr db matched found =
    let (e, same, way, end) = resolve_current_ends t db matched in
    (e, rw (found, same) refl, way, end)
