-- ===== src/Billing/Customers.antt =====
-- services/billing/src/customers/services.ts and repository.ts. Encryption, the HMAC and the current year are
-- arguments, and so is the order of the database's `lower(name), id`. The unique index on personal numbers and the
-- references of invoices and templates (migrations/0004_billing.js) are tested where a row is written or deleted.
pub mod Calls
pub mod Sound
pub mod Effects
pub mod Laws
pub mod Frame
pub mod Kept
pub mod Lookup
mod Tests
use faktureringssystemet.Prelude.{
  ℕ, ◌+◌, Bool, true, false, ◌&&◌, ◌||◌, not, Option, none, some, List, [], ◌∷◌, ◌++◌, map, String,
  str_eq, or_else, is_some, if◌then◌else◌, ◌==◌, find_first, select, update_where, delete_where,
  count_where,
}
use faktureringssystemet.Shared.Text.{Text, codes, text_eq}
use faktureringssystemet.Shared.Errors.{Error, Result, ok, err}
use faktureringssystemet.Shared.SwedishId.{is_valid_org_number, is_valid_pnr, normalize_pnr}
use faktureringssystemet.Shared.Tx.{Tx, pure, gets, modify, or_throw, throw_if, lift, ◌>>=◌, ◌>>◌}
use faktureringssystemet.Billing.Paging.{Page, page_at, sort_by}
use faktureringssystemet.Billing.Store.{
  CustomerType, CustomerRow, Address, InvoiceRow, InvoiceTemplateRow, Db, RequestContext,
}
use faktureringssystemet.Billing.Invoices.Repository.{is_customer, find_customer, write_audit_log}

-- `Deps`, with the functions that its keys make.
pub record Deps : Type 0 where
  pub encrypt_field : Text → Text
  pub hmac_field : Text → Text
  pub current_year : ℕ

pub record CreateCustomerInput : Type 0 where
  pub customer_type : CustomerType
  pub name : String
  pub email : String
  pub org_number : Option String
  pub pnr : Option Text
  pub address_street : Option String
  pub address_zip : Option String
  pub address_city : Option String
  pub payment_terms_days : Option ℕ

-- `paymentTermsDays` may be set to null.
pub record UpdateCustomerInput : Type 0 where
  pub name : Option String
  pub email : Option String
  pub org_number : Option String
  pub address_street : Option String
  pub address_zip : Option String
  pub address_city : Option String
  pub payment_terms_days : Option (Option ℕ)

-- `toView`: the personal number is not in it.
pub record CustomerView : Type 0 where
  pub id : ℕ
  pub customer_type : CustomerType
  pub name : String
  pub email : String
  pub is_email_valid : Bool
  pub org_number : Option String
  pub has_pnr : Bool
  pub address : Address
  pub payment_terms_days : Option ℕ

abbrev pub to_view : CustomerRow → CustomerView
to_view row = record {
  id = row.id;
  customer_type = row.customer_type;
  name = row.name;
  email = row.email;
  is_email_valid = row.email_valid;
  org_number = row.org_number;
  has_pnr = is_some row.pnr_hmac;
  address = record { street = row.address_street; zip = row.address_zip; city = row.address_city };
  payment_terms_days = row.payment_terms_days;
}

-- The columns that tell who a customer is.
pub record Identity : Type 0 where
  pub org_number : Option String
  pub pnr_encrypted : Option Text
  pub pnr_hmac : Option Text

abbrev pub company_identity : Option String → Result Identity
company_identity none = err Error.bad_request
company_identity (some n) =
    if str_eq n "" || not (is_valid_org_number (codes n))
    then err Error.bad_request
    else ok (record { org_number = some n; pnr_encrypted = none; pnr_hmac = none })

abbrev pub canonical_identity : Deps → Result Text → Result Identity
canonical_identity deps (err e) = err e
canonical_identity deps (ok canonical) = ok (record {
  org_number = none;
  pnr_encrypted = some (deps.encrypt_field canonical);
  pnr_hmac = some (deps.hmac_field canonical);
})

abbrev pub private_identity : Deps → Option Text → Result Identity
private_identity deps none = err Error.bad_request
private_identity deps (some pnr) =
    if is_valid_pnr deps.current_year pnr
    then canonical_identity deps (normalize_pnr deps.current_year pnr)
    else err Error.bad_request

unfoldable pub identify : Deps → CreateCustomerInput → Result Identity
identify deps input = elim input.customer_type [
  | CustomerType.company ↦ company_identity input.org_number
  | CustomerType.private ↦ private_identity deps input.pnr
]

abbrev pub has_text : Text → Option Text → Bool
has_text t none = false
has_text t (some s) = text_eq s t

-- customers_pnr_hmac_key
abbrev pub is_person : ℕ → Option Text → CustomerRow → Bool
is_person t none c = false
is_person t (some h) c = c.tenant_id == t && has_text h c.pnr_hmac

abbrev pub customer_row : ℕ → ℕ → CreateCustomerInput → Identity → CustomerRow
customer_row t id input who = record {
  id = id;
  tenant_id = t;
  customer_type = input.customer_type;
  name = input.name;
  email = input.email;
  email_valid = true;
  org_number = who.org_number;
  pnr_encrypted = who.pnr_encrypted;
  pnr_hmac = who.pnr_hmac;
  address_street = input.address_street;
  address_zip = input.address_zip;
  address_city = input.address_city;
  payment_terms_days = input.payment_terms_days;
}

abbrev pub with_customer : CustomerRow → Db → Db
with_customer row db = record db {
  customers = db.customers ++ row ∷ [];
  next_customer_id = db.next_customer_id + 1;
}

abbrev pub insert : ℕ → CreateCustomerInput → Identity → Tx Db CustomerRow
insert t input who = do
  known ← gets (λ (db : Db). count_where (is_person t who.pnr_hmac) db.customers)
  throw_if (not (known == 0)) Error.conflict
  row ← gets (λ (db : Db). customer_row t db.next_customer_id input who)
  modify (with_customer row)
  pure row

unfoldable pub create_in_tx : Deps → RequestContext → CreateCustomerInput → Tx Db CustomerView
create_in_tx deps ctx input = do
  who ← lift (identify deps input)
  row ← insert ctx.tenant_id input who
  write_audit_log ctx "customer.created" row.id
  pure (to_view row)

abbrev pub is_own : ℕ → CustomerRow → Bool
is_own t c = c.tenant_id == t

-- The tenant's customers in the order of the list.
abbrev pub listed : (CustomerRow → CustomerRow → Bool) → ℕ → Db → List CustomerRow
listed before t db = sort_by before (select (is_own t) db.customers)

abbrev pub view_page : Page CustomerRow → Page CustomerView
view_page page = record { items = map to_view page.items; has_more = page.has_more }

unfoldable pub list :
    (CustomerRow → CustomerRow → Bool) → RequestContext → Option ℕ → ℕ → Db → Page CustomerView
list before ctx limit offset db = view_page (page_at limit offset (listed before ctx.tenant_id db))

unfoldable pub get : RequestContext → ℕ → Tx Db CustomerView
get ctx id = do
  row ← or_throw (← find_customer ctx.tenant_id id) Error.not_found
  pure (to_view row)

abbrev pub set_column {ℓ} : {A : Type ℓ} → Option A → Option A → Option A
set_column none old = old
set_column (some new) old = some new

abbrev pub with_columns : UpdateCustomerInput → CustomerRow → CustomerRow
with_columns input c = record c {
  name = or_else input.name c.name;
  email = or_else input.email c.email;
  org_number = set_column input.org_number c.org_number;
  address_street = set_column input.address_street c.address_street;
  address_zip = set_column input.address_zip c.address_zip;
  address_city = set_column input.address_city c.address_city;
  payment_terms_days = or_else input.payment_terms_days c.payment_terms_days;
}

abbrev pub has_columns : UpdateCustomerInput → Bool
has_columns input =
    is_some input.name
    || is_some input.email
    || is_some input.org_number
    || is_some input.address_street
    || is_some input.address_zip
    || is_some input.address_city
    || is_some input.payment_terms_days

abbrev pub is_company : CustomerType → Bool
is_company CustomerType.company = true
is_company CustomerType.private = false

-- Whether an organisation number may be written on a row.
abbrev pub refuses_org_number : Option String → CustomerRow → Bool
refuses_org_number none c = false
refuses_org_number (some n) c =
    not (is_company c.customer_type) || not (is_valid_org_number (codes n))

abbrev pub update_columns : RequestContext → ℕ → UpdateCustomerInput → Tx Db CustomerView
update_columns ctx id input = do
  modify (λ (db : Db). record db {
    customers = update_where (is_customer ctx.tenant_id id) (with_columns input) db.customers;
  })
  row ← or_throw (← find_customer ctx.tenant_id id) Error.not_found
  write_audit_log ctx "customer.updated" id
  pure (to_view row)

unfoldable pub update : RequestContext → ℕ → UpdateCustomerInput → Tx Db CustomerView
update ctx id input = do
  existing ← or_throw (← find_customer ctx.tenant_id id) Error.not_found
  throw_if (refuses_org_number input.org_number existing) Error.bad_request
  if has_columns input then update_columns ctx id input else pure (to_view existing)

-- ON DELETE RESTRICT
abbrev pub references : ℕ → Db → ℕ
references id db =
    count_where (λ (r : InvoiceRow). r.customer_id == id) db.invoices
    + count_where (λ (r : InvoiceTemplateRow). r.customer_id == id) db.templates

unfoldable pub remove : RequestContext → ℕ → Tx Db (Unit {0})
remove ctx id = do
  existing ← or_throw (← find_customer ctx.tenant_id id) Error.not_found
  held ← gets (references id)
  throw_if (not (held == 0)) Error.conflict
  modify (λ (db : Db). record db {
    customers = delete_where (is_customer ctx.tenant_id id) db.customers;
  })
  write_audit_log ctx "customer.deleted" id

pub record CustomerCompanyMatch : Type 0 where
  pub tenant_id : ℕ
  pub customer_id : ℕ

abbrev pub match_of : CustomerRow → CustomerCompanyMatch
match_of c = record { tenant_id = c.tenant_id; customer_id = c.id }

abbrev pub is_private_person : Text → CustomerRow → Bool
is_private_person hmac c = has_text hmac c.pnr_hmac && not (is_company c.customer_type)

-- `findCustomersByPnrHmac`, over all tenants.
unfoldable pub lookup_by_pnr_hmac : Text → Db → List CustomerCompanyMatch
lookup_by_pnr_hmac hmac db = map match_of (select (is_private_person hmac) db.customers)
