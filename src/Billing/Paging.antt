-- ===== src/Billing/Paging.antt =====
-- The pages in which services/billing answers lists: `list` of customers/services.ts, `list` and
-- `listDeliveries` of invoices/services.ts. The rows come ordered; `sort_by` is ORDER BY.
pub mod Laws
use faktureringssystemet.Prelude.{
  ℕ, suc, Bool, Option, List, [], ◌∷◌, take, drop, length, ltb, min, or_else, if◌then◌else◌,
}

-- PAGE_DEFAULT
abbrev pub page_default : ℕ
page_default = 100

-- PAGE_MAX
abbrev pub page_max : ℕ
page_max = 200

abbrev pub page_limit : Option ℕ → ℕ
page_limit limit = min (or_else limit page_default) page_max

-- `{ items, hasMore }`
pub record Page (A : Type 0) : Type 0 where
  pub items : List A
  pub has_more : Bool

module _ {A : Type 0} where
  abbrev pub insert_by : (A → A → Bool) → A → List A → List A
  insert_by before x [] = x ∷ []
  insert_by before x (y ∷ ys) =
      let rest = insert_by before x ys in if before x y then x ∷ y ∷ ys else y ∷ rest

  unfoldable pub sort_by : (A → A → Bool) → List A → List A
  sort_by before [] = []
  sort_by before (x ∷ xs) = insert_by before x (sort_by before xs)

  -- LIMIT … OFFSET …
  abbrev pub window : ℕ → ℕ → List A → List A
  window limit offset rows = take limit (drop offset rows)

  -- One more row than asked for is read, to see if there are more.
  abbrev pub sliced : ℕ → List A → Page A
  sliced limit rows = record { items = take limit rows; has_more = ltb limit (length rows) }

  unfoldable pub page_at : Option ℕ → ℕ → List A → Page A
  page_at limit offset rows =
      sliced (page_limit limit) (window (suc (page_limit limit)) offset rows)
