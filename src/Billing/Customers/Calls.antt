-- ===== src/Billing/Customers/Calls.antt =====
-- The calls of services/billing/src/customers that write, each in its transaction, in any order.
use faktureringssystemet.Prelude.{ℕ, Bool, ◌==◌, List, [], ◌∷◌}
use faktureringssystemet.Shared.Tx.{begin}
use faktureringssystemet.Billing.Store.{Db, RequestContext}
use faktureringssystemet.Billing.Customers.{
  Deps, CreateCustomerInput, UpdateCustomerInput, create_in_tx, update, remove,
}

pub data CustomerCall : Type 0 where
  create : Deps → RequestContext → CreateCustomerInput → CustomerCall
  edit : RequestContext → ℕ → UpdateCustomerInput → CustomerCall
  delete : RequestContext → ℕ → CustomerCall

unfoldable pub handle : CustomerCall → Db → Db
handle (create deps ctx input) db = (begin (create_in_tx deps ctx input) db).1
handle (edit ctx id input) db = (begin (update ctx id input) db).1
handle (delete ctx id) db = (begin (remove ctx id) db).1

unfoldable pub handle_all : List CustomerCall → Db → Db
handle_all [] db = db
handle_all (c ∷ cs) db = handle_all cs (handle c db)

-- The tenant that a call is for.
abbrev pub is_for : CustomerCall → ℕ → Bool
is_for (create deps ctx input) t = ctx.tenant_id == t
is_for (edit ctx id input) t = ctx.tenant_id == t
is_for (delete ctx id) t = ctx.tenant_id == t
