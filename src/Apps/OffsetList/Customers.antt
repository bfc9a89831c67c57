-- ===== src/Apps/OffsetList/Customers.antt =====
-- The customers that apps/backoffice has read from services/billing in the end.
use faktureringssystemet.Prelude.{
  ℕ, suc, ◌≡◌, ◌∙◌, sym, ap, ◌&&◌, Bool, some, [], map, length, count_where, select, arith,
}
use faktureringssystemet.Billing.Store.{CustomerRow, Db, RequestContext}
use faktureringssystemet.Billing.Paging.{page_at}
use faktureringssystemet.Billing.Paging.Laws.{
  page_at-map, length-map, count_where-sort_by, count_where-select,
}
use faktureringssystemet.Billing.Customers.{to_view, is_own, listed, list}
use faktureringssystemet.Apps.OffsetList.{page_size, flat_items, load_pages}
use faktureringssystemet.Apps.OffsetList.Laws.{load_pages_all}

list_is_page :
    (before : CustomerRow → CustomerRow → Bool) (ctx : RequestContext) (db : Db) (offset : ℕ)
    → list before ctx (some page_size) offset db
      ≡ page_at (some page_size) offset (map to_view (listed before ctx.tenant_id db))
unfolding list
list_is_page before ctx db offset =
    sym (page_at-map to_view (some page_size) offset (listed before ctx.tenant_id db))

-- The list of customers, read page after page until there is no more, shows every customer of the tenant exactly once,
-- in the order of the list, and no one else's: it is the ordered rows as views, which are the tenant's by any count.
pub customers_listed :
    (before : CustomerRow → CustomerRow → Bool) (ctx : RequestContext) (db : Db)
    → let rows = listed before ctx.tenant_id db in
      (flat_items (load_pages (λ o. list before ctx (some page_size) o db) (suc (length rows)) 0 [])
        ≡ map to_view rows)
      × ((q : CustomerRow → Bool)
          → count_where q rows ≡ count_where (λ c. is_own ctx.tenant_id c && q c) db.customers)
customers_listed before ctx db =
    let rows = listed before ctx.tenant_id db in
    (
      ap (λ fetch. flat_items (load_pages fetch (suc (length rows)) 0 []))
            (λ i o. list_is_page before ctx db o i)
          ∙ ap
              (λ n.
                flat_items
                  (load_pages (λ o. page_at (some page_size) o (map to_view rows)) (suc n) 0 []))
              (sym (length-map to_view rows))
          ∙ load_pages_all (some page_size) (map to_view rows) (omega arith),
      λ q.
          count_where-sort_by q before (select (is_own ctx.tenant_id) db.customers)
          ∙ count_where-select q (is_own ctx.tenant_id) db.customers,
    )
