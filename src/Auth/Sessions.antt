-- ===== src/Auth/Sessions.antt =====
-- services/auth/src/auth/services.ts: the calls that use tokens up, to refresh or end a session, verify an
-- address or reset a password. Signing the access token is left out: what it is about is answered.
pub mod Laws
pub mod Reset
use faktureringssystemet.Prelude.{
  ℕ, Bool, true, false, ◌&&◌, ◌||◌, not, Option, none, some, ltb, ◌==◌, if◌then◌else◌, is_some,
  find_first, update_where,
}
use faktureringssystemet.Shared.Text.{Text}
use faktureringssystemet.Shared.Errors.{Error, Result, ok, err}
use faktureringssystemet.Shared.Tx.{
  Tx, pure, throw, throw_if, gets, or_throw, modify, begin, ◌>>=◌, ◌>>◌,
}
use faktureringssystemet.Auth.Tokens.{
  TokenType, UserRole, UserTokenRow, UserRow, TenantRow, CompanyLink, AuthDb, TokenCalls,
  find_token, mark_token_used, revoked, revoke_tokens, issue_token_row, write_audit_log,
}

-- The access token's claims and the new refresh token.
pub record TokenPair : Type 0 where
  pub user_id : ℕ
  pub tenant_id : ℕ
  pub role : UserRole
  pub customer_id : Option ℕ
  pub refresh_token : Text

abbrev pub find_user_by_id : ℕ → AuthDb → Option UserRow
find_user_by_id id db = find_first (λ r. r.id == id) db.users

abbrev pub active_of : Option TenantRow → Bool
active_of none = false
active_of (some t) = t.is_active

abbrev pub is_tenant_active : ℕ → AuthDb → Bool
is_tenant_active tenant db = active_of (find_first (λ t. t.id == tenant) db.tenants)

abbrev pub linked_customer : Option CompanyLink → Option ℕ
linked_customer none = none
linked_customer (some l) = some l.customer_id

abbrev pub find_link : ℕ → ℕ → AuthDb → Option CompanyLink
find_link user tenant db = find_first (λ l. l.user_id == user && l.tenant_id == tenant) db.links

abbrev pub is_customer : UserRole → Bool
is_customer UserRole.customer = true
is_customer UserRole.admin = false

-- `user.customer_id ?? (…)`
abbrev pub customer_of : UserRow → ℕ → AuthDb → Option ℕ
customer_of user tenant db = elim user.customer_id [
  | some id ↦ some id
  | none ↦ if is_customer user.role then linked_customer (find_link user.id tenant db) else none
]

-- Who a session is for, before it is refreshed.
abbrev pub session_of : ℕ → UserTokenRow → Tx AuthDb (UserRow × Option ℕ)
session_of now row = do
  throw_if (ltb row.expires_at now) Error.unauthorized
  user ← or_throw (← gets (find_user_by_id row.user_id)) Error.unauthorized
  active ← gets (is_tenant_active row.tenant_id)
  throw_if (not active) Error.forbidden
  customer ← gets (customer_of user row.tenant_id)
  throw_if (is_customer user.role && not (is_some customer)) Error.forbidden
  pure (user, customer)

-- A parallel refresh came first, or the new token.
abbrev pub after_mark : TokenCalls → UserTokenRow → UserRow → Bool → Tx AuthDb Text
after_mark c row user true =
    revoke_tokens c.now row.user_id TokenType.refresh >> throw Error.unauthorized
after_mark c row user false =
    issue_token_row c user.id row.tenant_id TokenType.refresh c.refresh_ttl_seconds

-- The transaction of `refresh`.
unfoldable pub rotate : TokenCalls → UserTokenRow → UserRow → Tx AuthDb Text
rotate c row user = do marked ← mark_token_used c.now row.id; after_mark c row user (marked == 0)

abbrev pub pair_of : UserTokenRow → UserRow → Option ℕ → Result Text → Result TokenPair
pair_of row user customer (err e) = err e
pair_of row user customer (ok token) = ok (record {
  user_id = user.id;
  tenant_id = row.tenant_id;
  role = user.role;
  customer_id = customer;
  refresh_token = token;
})

abbrev pub answer_pair :
    UserTokenRow → UserRow → Option ℕ → Result Text × AuthDb → Result TokenPair × AuthDb
answer_pair row user customer (token, db) = (pair_of row user customer token, db)

abbrev pub refresh_session :
    TokenCalls
    → (AuthDb → AuthDb)
    → UserTokenRow
    → AuthDb
    → Result ((UserRow × Option ℕ) × AuthDb)
    → Result TokenPair × AuthDb
refresh_session c meanwhile row db (err e) = (err e, db)
refresh_session c meanwhile row db (ok ((user, customer), read)) =
    answer_pair row user customer (begin (rotate c row user) (meanwhile read))

abbrev pub refresh_found :
    TokenCalls → (AuthDb → AuthDb) → Option UserTokenRow → AuthDb → Result TokenPair × AuthDb
refresh_found c meanwhile none db = (err Error.unauthorized, db)
refresh_found c meanwhile (some row) db =
    if is_some row.used_at
    then (err Error.unauthorized, (begin (revoke_tokens c.now row.user_id TokenType.refresh) db).1)
    else refresh_session c meanwhile row db (session_of c.now row db)

-- `meanwhile` is what other requests do to the database between the reads and the transaction.
unfoldable pub refresh : TokenCalls → (AuthDb → AuthDb) → Text → AuthDb → Result TokenPair × AuthDb
refresh c meanwhile token db =
    refresh_found c meanwhile (find_token (c.hash_token token) TokenType.refresh db) db

abbrev pub logout_found : TokenCalls → Option UserTokenRow → AuthDb → AuthDb
logout_found c none db = db
logout_found c (some row) db =
    if not (is_some row.used_at) then (begin (mark_token_used c.now row.id) db).1 else db

unfoldable pub logout : TokenCalls → Text → AuthDb → AuthDb
logout c token db = logout_found c (find_token (c.hash_token token) TokenType.refresh db) db

-- With the user that `findUserByEmailForLogin` answers.
unfoldable pub forgot_password : TokenCalls → Option UserRow → Tx AuthDb (Unit {0})
forgot_password c none = pure tt
forgot_password c (some user) = do
  revoke_tokens c.now user.id TokenType.password_reset
  issue_token_row c user.id user.tenant_id TokenType.password_reset c.password_reset_ttl_seconds
  modify (write_audit_log user.tenant_id user.id "password.reset_requested")

-- `!row || row.used_at || row.expires_at.getTime() < Date.now()`
abbrev pub is_spent : ℕ → UserTokenRow → Bool
is_spent now row = is_some row.used_at || ltb row.expires_at now

abbrev pub use_token : ℕ → UserTokenRow → Tx AuthDb (Unit {0})
use_token now row = do marked ← mark_token_used now row.id; throw_if (marked == 0) Error.bad_request

abbrev pub set_email_verified : ℕ → ℕ → AuthDb → AuthDb
set_email_verified now id db = record db {
  users = update_where (λ u. u.id == id) (λ u. record u { email_verified_at = some now }) db.users;
}

unfoldable pub verify_email : TokenCalls → Text → Tx AuthDb (Unit {0})
verify_email c token = do
  row ←
      or_throw (← gets (find_token (c.hash_token token) TokenType.email_verification))
        Error.bad_request
  throw_if (is_spent c.now row) Error.bad_request
  use_token c.now row
  modify (set_email_verified c.now row.user_id)

abbrev pub update_password : ℕ → Text → AuthDb → AuthDb
update_password id hash db = record db {
  users = update_where (λ u. u.id == id) (λ u. record u { password_hash = some hash }) db.users;
}

-- A parallel reset came first, or the password is changed.
abbrev pub change_password : TokenCalls → UserTokenRow → Text → Bool → Tx AuthDb (Unit {0})
change_password c row new_password true = throw Error.bad_request
change_password c row new_password false = do
  modify (update_password row.user_id (c.hash_password new_password))
  revoke_tokens c.now row.user_id TokenType.refresh
  revoke_tokens c.now row.user_id TokenType.password_reset
  modify (write_audit_log row.tenant_id row.user_id "password.reset")

unfoldable pub reset_password : TokenCalls → Text → Text → Tx AuthDb (Unit {0})
reset_password c token new_password = do
  row ←
      or_throw (← gets (find_token (c.hash_token token) TokenType.password_reset)) Error.bad_request
  throw_if (is_spent c.now row) Error.bad_request
  marked ← mark_token_used c.now row.id
  change_password c row new_password (marked == 0)
