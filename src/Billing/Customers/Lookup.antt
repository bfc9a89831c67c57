-- ===== src/Billing/Customers/Lookup.antt =====
-- Reading customers: by personal number over all tenants, and page after page.
use faktureringssystemet.Prelude.{
  ◌≡◌, ◌∙◌, refl, ap, inl, inr, Bool, true, some, List, [], ◌∷◌, ◌++◌, arith, map, select,
  Bool-cases,
}
use faktureringssystemet.Shared.Text.{Text, text_eq_refl}
use faktureringssystemet.Shared.Errors.{ok}
use faktureringssystemet.Shared.SwedishId.{is_valid_pnr, normalize_pnr}
use faktureringssystemet.Billing.Store.{CustomerType, Db, RequestContext}
use faktureringssystemet.Billing.Customers.{
  Deps, CreateCustomerInput, CustomerView, Identity, identify, customer_row, create_in_tx,
  is_private_person, match_of, lookup_by_pnr_hmac,
}
use faktureringssystemet.Billing.Customers.Effects.{create_effect}

select-append_own :
    {A : Type 0} (q : A → Bool) (xs : List A) (x : A)
    → q x ≡ true
    → select q (xs ++ x ∷ []) ≡ select q xs ++ x ∷ []
select-append_own q [] x h = ground arith
select-append_own q (y ∷ xs) x h = let rest = select-append_own q xs x h in ground (arith, rest)

map-append_one :
    {A B : Type 0} (f : A → B) (xs : List A) (x : A) → map f (xs ++ x ∷ []) ≡ map f xs ++ f x ∷ []
map-append_one f [] x = refl
map-append_one f (y ∷ xs) x = ap (λ l. f y ∷ l) (map-append_one f xs x)

private_hmac :
    (deps : Deps) (input : CreateCustomerInput) (who : Identity) (pnr canonical : Text)
    → input.customer_type ≡ CustomerType.private
    → input.pnr ≡ some pnr
    → normalize_pnr deps.current_year pnr ≡ ok canonical
    → identify deps input ≡ ok who
    → who.pnr_hmac ≡ some (deps.hmac_field canonical)
unfolding identify
private_hmac deps input who pnr canonical kind given normal h =
    elim (Bool-cases (is_valid_pnr deps.current_year pnr)) [
      | inl valid ↦ ground (arith, kind, given, normal, valid, h)
      | inr refused ↦ absurd (ground (arith, kind, given, normal, refused, h))
    ]

-- A private person that was created is found by the personal number, in any spelling that means the same, and is one
-- more customer than were found before.
pub created_is_found :
    (deps : Deps) (ctx : RequestContext) (input : CreateCustomerInput) (db db' : Db)
    (v : CustomerView) (pnr other canonical : Text)
    → create_in_tx deps ctx input db ≡ ok (v, db')
    → input.customer_type ≡ CustomerType.private
    → input.pnr ≡ some pnr
    → normalize_pnr deps.current_year pnr ≡ normalize_pnr deps.current_year other
    → normalize_pnr deps.current_year other ≡ ok canonical
    → lookup_by_pnr_hmac (deps.hmac_field canonical) db'
      ≡ lookup_by_pnr_hmac (deps.hmac_field canonical) db
        ++ record { tenant_id = ctx.tenant_id; customer_id = db.next_customer_id } ∷ []
unfolding lookup_by_pnr_hmac
created_is_found deps ctx input db db' v pnr other canonical h kind given same_person normal =
    let (who, good, new, same, next) = create_effect deps ctx input db db' v h in
    let key = private_hmac deps input who pnr canonical kind given (same_person ∙ normal) good in
    let row = customer_row ctx.tenant_id db.next_customer_id input who in
    let q = is_private_person (deps.hmac_field canonical) in
    let own : q row ≡ true = rw (key, kind, text_eq_refl (deps.hmac_field canonical)) refl in
    ap (λ cs. map match_of (select q cs)) same
    ∙ ap (map match_of) (select-append_own q db.customers row own)
    ∙ map-append_one match_of (select q db.customers) row
