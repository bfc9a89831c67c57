-- ===== src/Billing/Customers/Sound.antt =====
-- The state of customers that services/billing/src/customers keeps.
use faktureringssystemet.Prelude.{
  ℕ, ◌≤◌, ◌≡◌, refl, inl, inr, ◌⊎◌, Bool, true, not, ◌&&◌, Option, none, some, String, arith, ◌==◌,
  All, count_where, is_some, Bool-cases, ltb,
}
use faktureringssystemet.Prelude.Rows.{as_count}
use faktureringssystemet.Shared.Text.{Text}
use faktureringssystemet.Shared.Errors.{Result, ok, err}
use faktureringssystemet.Shared.SwedishId.{is_valid_pnr, normalize_pnr}
use faktureringssystemet.Billing.Store.{CustomerType, CustomerRow, Db}
use faktureringssystemet.Billing.Customers.{
  Deps, CreateCustomerInput, Identity, identify, company_identity, private_identity, is_person,
  customer_row, canonical_identity,
}

-- What a customer's row looks like: a company has an organisation number and no personal number, a private person
-- the two columns of a personal number and no organisation number.
abbrev pub is_shaped_as : CustomerType → Option String → Option Text → Option Text → Bool
is_shaped_as CustomerType.company o e h = is_some o && not (is_some e) && not (is_some h)
is_shaped_as CustomerType.private o e h = not (is_some o) && is_some e && is_some h

abbrev pub is_shaped : CustomerRow → Bool
is_shaped c = is_shaped_as c.customer_type c.org_number c.pnr_encrypted c.pnr_hmac

abbrev pub IsShaped : CustomerRow → Type 0
IsShaped c = is_shaped c ≡ true

abbrev pub has_id : ℕ → CustomerRow → Bool
has_id i c = c.id == i

-- Every customer has its shape and an id of its own below the next one, and no two of a tenant have the same
-- personal number.
pub record IsSound (db : Db) : Type 0 where
  pub shaped : All IsShaped db.customers
  pub persons : (t : ℕ) (h : Text) → count_where (is_person t (some h)) db.customers ≤ 1
  pub ids : (i : ℕ) → count_where (has_id i) db.customers ≤ as_count (ltb i db.next_customer_id)

company_shape :
    (o : Option String) (who : Identity)
    → company_identity o ≡ ok who
    → is_shaped_as CustomerType.company who.org_number who.pnr_encrypted who.pnr_hmac ≡ true
company_shape none who h = absurd (ground arith)
company_shape (some n) who h = ground arith

canonical_shape :
    (deps : Deps) (r : Result Text) (who : Identity)
    → canonical_identity deps r ≡ ok who
    → is_shaped_as CustomerType.private who.org_number who.pnr_encrypted who.pnr_hmac ≡ true
canonical_shape deps (ok c) who h = ground arith
canonical_shape deps (err e) who h = absurd (ground arith)

private_shape :
    (deps : Deps) (p : Option Text) (who : Identity)
    → private_identity deps p ≡ ok who
    → is_shaped_as CustomerType.private who.org_number who.pnr_encrypted who.pnr_hmac ≡ true
private_shape deps none who h = absurd (ground arith)
private_shape deps (some p) who h = elim (Bool-cases (is_valid_pnr deps.current_year p)) [
  | inl valid ↦ canonical_shape deps (normalize_pnr deps.current_year p) who (ground arith)
  | inr refused ↦ absurd (ground arith)
]

pub type-cases : (k : CustomerType) → (k ≡ CustomerType.company) ⊎ (k ≡ CustomerType.private)
type-cases CustomerType.company = inl refl
type-cases CustomerType.private = inr refl

pub identified_shape :
    (deps : Deps) (input : CreateCustomerInput) (who : Identity) (t id : ℕ)
    → identify deps input ≡ ok who
    → IsShaped (customer_row t id input who)
unfolding identify
identified_shape deps input who t id h = elim (type-cases input.customer_type) [
  | inl firm ↦ rw firm (company_shape input.org_number who (ground (arith, firm, h)))
  | inr person ↦ rw person (private_shape deps input.pnr who (ground (arith, person, h)))
]
