-- ===== src/Apps/OffsetList.antt =====
-- apps/backoffice/src/lib/useOffsetList.ts: a list that is read page after page. `fetch_page` stands for the
-- call of the service; the infinite query asks for the page at `getNextPageParam` until that is undefined.
pub mod Laws
pub mod Customers
use faktureringssystemet.Prelude.{
  ℕ, zero, suc, ◌+◌, Option, none, some, List, [], ◌∷◌, ◌++◌, length, if◌then◌else◌,
}
use faktureringssystemet.Billing.Paging.{Page}

-- PAGE_SIZE of apps/backoffice/src/lib/pagination.ts
abbrev pub page_size : ℕ
page_size = 200

module _ {A : Type 0} where
  abbrev pub count_items : List (Page A) → ℕ
  count_items [] = 0
  count_items (p ∷ ps) = length p.items + count_items ps

  abbrev pub get_next_page_param : Page A → List (Page A) → Option ℕ
  get_next_page_param last_page all_pages =
      if last_page.has_more then some (count_items all_pages) else none

  -- `pages.flatMap((page) => page.items)`
  abbrev pub flat_items : List (Page A) → List A
  flat_items [] = []
  flat_items (p ∷ ps) = p.items ++ flat_items ps

  -- All the pages, one fetched after the other.
  unfoldable pub load_pages : (ℕ → Page A) → ℕ → ℕ → List (Page A) → List (Page A)
  load_pages fetch_page zero page_param pages = pages
  load_pages fetch_page (suc fuel) page_param pages =
      let all_pages = pages ++ fetch_page page_param ∷ [] in
      elim (get_next_page_param (fetch_page page_param) all_pages) [
        | none ↦ all_pages
        | some next ↦ load_pages fetch_page fuel next all_pages
      ]
