-- ===== src/Auth/Tests.antt =====
-- The throttle at concrete times, and one user's sessions.
use faktureringssystemet.Prelude.{
  ℕ, refl, ◌≡◌, arith, Bool, true, false, Option, some, none, List, [], ◌∷◌, map, is_some,
}
use faktureringssystemet.Shared.Text.{Text, codes, text_eq}
use faktureringssystemet.Shared.Errors.{Error, Result, ok, err}
use faktureringssystemet.Auth.Tokens.{
  TokenType, UserRole, UserTokenRow, AuthDb, TokenCalls, revoked,
}
use faktureringssystemet.Auth.Sessions.{TokenPair, refresh, rotate, reset_password}
use faktureringssystemet.Auth.Sessions.Laws.{unused, refresh_twice, refresh_race}
use faktureringssystemet.Auth.Invites.{
  Addresses, RegisterInput, CreateCustomerInviteInput, InternalCustomer, register, register_in_tx,
  create_customer_invite, accept_customer_invite, insert_user,
}
use faktureringssystemet.Auth.Invites.Calls.{InviteCall, sign_up, offer, accept, handle, handle_all}
use faktureringssystemet.Auth.Invites.Sound.{IsSound}
use faktureringssystemet.Auth.Invites.Laws.{logins-IsSound}
use faktureringssystemet.Auth.Throttle.{
  LoginUser, login, assert_not_locked_out, record_login_failure,
}
use faktureringssystemet.Auth.Throttle.Laws.{Attempt, keys_after, WrongInTurn, failures_lock_out}

abbrev anyone : LoginUser
anyone = record { password_hash = none; is_verified = true; is_tenant_active = true }

abbrev wrong_at : ℕ → Attempt
wrong_at t = record {
  at = t;
  password = codes "guess";
  user = some (record anyone { password_hash = some (codes "secret") });
}

abbrev wrongs : List Attempt
wrongs = wrong_at 30 ∷ wrong_at 20 ∷ wrong_at 10 ∷ wrong_at 0 ∷ []

wrong_in_turn : WrongInTurn text_eq [] (wrong_at 40 ∷ wrongs)
unfolding login assert_not_locked_out record_login_failure
wrong_in_turn =
    ((
      refl,
      refl,
      omega arith,
      (
        refl,
        refl,
        omega arith,
        (refl, refl, omega arith, (refl, refl, omega arith, (refl, refl, tt, tt))),
      ),
    ))

failures_lock_out_example :
    ((login text_eq [] 40 (codes "guess") (wrong_at 40).user (keys_after text_eq [] wrongs)).0
      ≡ err Error.unauthorized)
    × (login text_eq [] 69
          (codes "secret")
          (wrong_at 40).user
          (keys_after text_eq [] (wrong_at 40 ∷ wrongs))
        ≡ (err Error.too_many_requests, keys_after text_eq [] (wrong_at 40 ∷ wrongs)))
    × (assert_not_locked_out 941 (keys_after text_eq [] (wrong_at 40 ∷ wrongs)) ≡ ok tt)
failures_lock_out_example =
    failures_lock_out text_eq [] (wrong_at 40) wrongs (codes "secret") (wrong_at 40).user 29 1
      wrong_in_turn (omega arith) (omega arith)

-- Tokens that are hashed to themselves.
abbrev calls : TokenCalls
calls = record {
  hash_token = λ t. t;
  hash_password = λ t. t;
  generate_token = codes "next";
  now = 1000;
  refresh_ttl_seconds = 60;
  password_reset_ttl_seconds = 60;
  email_verification_ttl_seconds = 60;
  customer_invite_ttl_seconds = 60;
}

abbrev token_row : ℕ → TokenType → Text → UserTokenRow
token_row id type hash = record {
  id = id;
  tenant_id = 1;
  user_id = 7;
  token_type = type;
  token_hash = hash;
  expires_at = 5000;
  used_at = none;
}

-- A user with two sessions and a reset link.
abbrev signed_in : AuthDb
signed_in = record {
  next_token_id = 4;
  next_user_id = 8;
  next_tenant_id = 2;
  user_tokens =
      token_row 1 TokenType.refresh (codes "phone")
      ∷ token_row 2 TokenType.refresh (codes "laptop")
      ∷ token_row 3 TokenType.password_reset (codes "link")
      ∷ [];
  users =
      record {
        id = 7;
        tenant_id = 1;
        role = UserRole.admin;
        email = some (codes "anna@example.se");
        password_hash = some (codes "old");
        customer_id = none;
        email_verified_at = none;
      }
      ∷ [];
  tenants =
      record { id = 1; name = "Målaren AB"; org_number = codes "556677-8899"; is_active = true }
      ∷ [];
  links = [];
  outbox = [];
  audit_log = [];
}

abbrev renewed_pair : TokenPair
renewed_pair = record {
  user_id = 7;
  tenant_id = 1;
  role = UserRole.admin;
  customer_id = none;
  refresh_token = codes "next";
}

abbrev renewed : AuthDb
renewed = (refresh calls (λ d. d) (codes "phone") signed_in).1

refresh_run : refresh calls (λ d. d) (codes "phone") signed_in ≡ (ok renewed_pair, renewed)
unfolding refresh rotate
refresh_run = refl

sessions_run : unused 7 TokenType.refresh renewed ≡ 2
unfolding refresh rotate
sessions_run = refl

refresh_twice_example :
    ((refresh calls (λ d. d) (codes "phone") renewed).0 ≡ err Error.unauthorized)
    × (unused 7 TokenType.refresh (refresh calls (λ d. d) (codes "phone") renewed).1 ≡ 0)
refresh_twice_example =
    refresh_twice calls calls (λ d. d) (λ d. d) (codes "phone") signed_in renewed renewed
      renewed_pair (λ d. refl) refresh_run refl refl

refresh_race_example :
    refresh calls (revoked 900 7 TokenType.refresh) (codes "phone") signed_in
    ≡ (err Error.unauthorized, revoked 900 7 TokenType.refresh signed_in)
refresh_race_example =
    refresh_race calls (revoked 900 7 TokenType.refresh) (codes "phone") signed_in
      (token_row 1 TokenType.refresh (codes "phone")) _ none refl refl refl refl

abbrev reset : AuthDb
reset = elim (reset_password calls (codes "link") (codes "new") signed_in) [
  | ok (x, db) ↦ db
  | err e ↦ signed_in
]

-- Addresses that are written alike.
abbrev plain : Addresses
plain = record { norm = λ t. t; lower = λ t. t; unknown_password = codes "unknown" }

abbrev company : RegisterInput
company = record {
  company_name = "Målaren AB";
  org_number = codes "556677-8899";
  email = codes "anna@example.se";
  password = codes "secret";
}

abbrev to_bo : CreateCustomerInviteInput
to_bo = record { customer_id = 3; email = codes "bo@example.se" }

abbrev known : ℕ → ℕ → Result (Option InternalCustomer)
known tenant customer =
    ok (some (record { id = customer; name = "Bo"; email = codes "bo@example.se" }))

abbrev linked : Text → TokenCalls
linked t = record calls { generate_token = t }

-- A company registers, invites a customer twice, and the second link is used twice.
abbrev invite_calls : List InviteCall
invite_calls =
    sign_up (linked (codes "mail")) company
    ∷ offer (linked (codes "first")) known 1 1 to_bo
    ∷ offer (linked (codes "second")) known 1 1 to_bo
    ∷ accept calls (codes "first") (codes "guess")
    ∷ accept calls (codes "second") (codes "mine")
    ∷ offer (linked (codes "third")) known 1 1 to_bo
    ∷ []

abbrev nobody : AuthDb
nobody = record {
  next_token_id = 1;
  next_user_id = 1;
  next_tenant_id = 1;
  user_tokens = [];
  users = [];
  tenants = [];
  links = [];
  outbox = [];
  audit_log = [];
}

nobody-IsSound : IsSound plain nobody
nobody-IsSound = record {
  ids = λ i. ground arith;
  links = λ i. ground arith;
  portals = λ i. ground arith;
  addresses = λ e. ground arith;
}

logins-IsSound_example : IsSound plain (handle_all plain invite_calls nobody)
logins-IsSound_example = logins-IsSound plain invite_calls nobody nobody-IsSound

invites_run :
    map {B = ℕ × Option Text × Bool}
      (λ u. (u.id, u.password_hash, is_some u.email_verified_at))
      (handle_all plain invite_calls nobody).users
    ≡ (1, some (codes "secret"), false) ∷ (2, some (codes "mine"), true) ∷ []
unfolding handle_all handle register create_customer_invite accept_customer_invite insert_user
    register_in_tx
invites_run = refl
