-- ===== src/Shared/Errors.antt =====
-- packages/shared/src/errors/index.ts: the errors by class. The messages are not kept.
use faktureringssystemet.Prelude.{ℕ, ◌≡◌, refl, ◌⊎◌, inl, inr}

-- A subclass of `BaseError` each; `plain_error` is a thrown `Error` of no such class.
pub data Error : Type 0 where
  internal_error unauthorized bad_request not_found forbidden conflict : Error
  too_many_requests unprocessable_entity plain_error : Error

pub data Result (A : Type 0) : Type 0 where
  ok : A → Result A
  err : Error → Result A

-- `statusCode`; the handler answers 500 to what is no `BaseError`.
unfoldable pub status_code : Error → ℕ
status_code Error.internal_error = 500
status_code Error.unauthorized = 401
status_code Error.bad_request = 400
status_code Error.not_found = 404
status_code Error.forbidden = 403
status_code Error.conflict = 409
status_code Error.too_many_requests = 429
status_code Error.unprocessable_entity = 422
status_code Error.plain_error = 500

pub Result-cases :
    {A : Type 0} (r : Result A) → ((a : A) × (r ≡ ok a)) ⊎ ((e : Error) × (r ≡ err e))
Result-cases (ok a) = inl (a, refl)
Result-cases (err e) = inr (e, refl)
