-- ===== src/Billing/Customers/Tests.antt =====
-- Customers at concrete inputs.
use faktureringssystemet.Prelude.{◌≡◌, refl, none, some, List, [], ◌∷◌, ◌++◌, arith, true}
use faktureringssystemet.Shared.Text.{codes, to_decimal, to_number}
use faktureringssystemet.Shared.Errors.{ok, err}
use faktureringssystemet.Shared.SwedishId.{normalize_pnr, is_valid_pnr, luhn}
use faktureringssystemet.Shared.Ocr.{luhn_loop}
use faktureringssystemet.Billing.Store.{CustomerType, Db}
use faktureringssystemet.Billing.Samples.{empty, sold, ctx, deps, customer}
use faktureringssystemet.Billing.Invoices.Repository.{write_audit_log}
use faktureringssystemet.Billing.Customers.{
  CreateCustomerInput, UpdateCustomerInput, CustomerView, identify, create_in_tx,
  lookup_by_pnr_hmac,
}
use faktureringssystemet.Billing.Customers.Calls.{CustomerCall, create, edit, delete, handle_all}
use faktureringssystemet.Billing.Customers.Sound.{IsSound}
use faktureringssystemet.Billing.Customers.Laws.{customers-IsSound}
use faktureringssystemet.Billing.Customers.Kept.{StillThere, referenced_stay}
use faktureringssystemet.Billing.Customers.Lookup.{created_is_found}

abbrev anna : CreateCustomerInput
anna = record {
  customer_type = CustomerType.private;
  name = "Anna";
  email = "anna@example.se";
  org_number = none;
  pnr = some (codes "811218-9876");
  address_street = none;
  address_zip = none;
  address_city = none;
  payment_terms_days = none;
}

abbrev renamed : UpdateCustomerInput
renamed = record {
  name = some "Kund i Malmö AB";
  email = none;
  org_number = none;
  address_street = none;
  address_zip = none;
  address_city = none;
  payment_terms_days = some (some 10);
}

-- One person twice, a company that is renamed and one that is deleted.
abbrev calls : List CustomerCall
calls = create deps ctx anna ∷ create deps ctx anna ∷ edit ctx 7 renamed ∷ delete ctx 7 ∷ []

empty-IsSound : IsSound empty
empty-IsSound = record {
  shaped = (refl, tt);
  persons = λ t h. ground arith;
  ids = λ i. ground arith;
}

customers-IsSound_example : IsSound (handle_all calls empty)
customers-IsSound_example = customers-IsSound calls empty empty-IsSound

referenced_stay_example : StillThere 1 7 customer (handle_all calls sold)
referenced_stay_example = referenced_stay calls 1 7 customer sold refl (λ e. ground arith)

abbrev with_anna : Db
with_anna = elim (create_in_tx deps ctx anna empty) [ ok (v, db) ↦ db | err e ↦ empty ]

abbrev anna_view : CustomerView
anna_view = record {
  id = 8;
  customer_type = CustomerType.private;
  name = "Anna";
  email = "anna@example.se";
  is_email_valid = true;
  org_number = none;
  has_pnr = true;
  address = record { street = none; zip = none; city = none };
  payment_terms_days = none;
}

anna_run : create_in_tx deps ctx anna empty ≡ ok (anna_view, with_anna)
unfolding create_in_tx identify is_valid_pnr normalize_pnr luhn luhn_loop write_audit_log to_decimal
    to_number
anna_run = refl

other_spelling :
    normalize_pnr 2026 (codes "811218-9876") ≡ normalize_pnr 2026 (codes "19811218 9876")
unfolding normalize_pnr to_decimal to_number
other_spelling = refl

spelled_out : normalize_pnr 2026 (codes "19811218 9876") ≡ ok (codes "198112189876")
unfolding normalize_pnr
spelled_out = refl

created_is_found_example :
    lookup_by_pnr_hmac (codes "198112189876") with_anna
    ≡ lookup_by_pnr_hmac (codes "198112189876") empty
      ++ record { tenant_id = 1; customer_id = 8 } ∷ []
created_is_found_example =
    created_is_found deps ctx anna empty with_anna anna_view (codes "811218-9876")
      (codes "19811218 9876") (codes "198112189876") anna_run refl refl other_spelling spelled_out
