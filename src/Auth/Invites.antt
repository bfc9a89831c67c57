-- ===== src/Auth/Invites.antt =====
-- services/auth/src/auth/services.ts: how logins come to be, by registering a company or by inviting a customer to
-- the portal. The unique indexes of `users` and `tenants` (migrations/0002_auth.js and 0009_portal.js) are tested where
-- a row is written. The address as `norm` and the database's `lower` give it, hashing and the random password are arguments.
pub mod Calls
pub mod Sound
pub mod Added
pub mod Again
pub mod Accepted
pub mod Laws
use faktureringssystemet.Prelude.{
  ℕ, suc, ◌+◌, Bool, true, false, ◌&&◌, not, Option, none, some, List, [], ◌∷◌, ◌++◌, ◌==◌, is_some,
  find_first, update_where, count_where, String,
}
use faktureringssystemet.Shared.Text.{Text, text_eq}
use faktureringssystemet.Shared.Errors.{Error, Result, ok, err}
use faktureringssystemet.Shared.Tx.{
  Tx, pure, throw, throw_if, gets, or_throw, modify, lift, begin, ◌>>=◌, ◌>>◌,
}
use faktureringssystemet.Auth.Tokens.{
  TokenType, UserRole, UserRow, TenantRow, AuthDb, TokenCalls, find_token, revoke_tokens,
  issue_token_row, write_audit_log,
}
use faktureringssystemet.Auth.Sessions.{is_spent, use_token, update_password, set_email_verified}

-- `email.trim().toLowerCase()`, the database's `lower(email)` and `hashPassword(randomUUID())`.
pub record Addresses : Type 0 where
  pub norm : Text → Text
  pub lower : Text → Text
  pub unknown_password : Text

pub record RegisterInput : Type 0 where
  pub company_name : String
  pub org_number : Text
  pub email : Text
  pub password : Text

pub record CreateCustomerInviteInput : Type 0 where
  pub customer_id : ℕ
  pub email : Text

-- users_email_unique
abbrev pub has_email : Addresses → Text → UserRow → Bool
has_email a email u = elim u.email [
  | none ↦ false
  | some mine ↦ text_eq (a.lower mine) (a.lower email)
]

-- users_customer_id_unique
abbrev pub is_portal_of : ℕ → UserRow → Bool
is_portal_of customer u = elim u.customer_id [ none ↦ false | some id ↦ id == customer ]

abbrev pub has_customer : Option ℕ → UserRow → Bool
has_customer none u = false
has_customer (some customer) u = is_portal_of customer u

abbrev pub user_row : ℕ → ℕ → UserRole → Text → Text → Option ℕ → UserRow
user_row id tenant role email password_hash customer = record {
  id = id;
  tenant_id = tenant;
  role = role;
  email = some email;
  password_hash = some password_hash;
  customer_id = customer;
  email_verified_at = none;
}

abbrev pub with_user : UserRow → AuthDb → AuthDb
with_user u db = record db { next_user_id = suc db.next_user_id; users = db.users ++ u ∷ [] }

-- INSERT INTO users, which answers the new id or violates an index.
unfoldable pub insert_user : Addresses → ℕ → UserRole → Text → Text → Option ℕ → Tx AuthDb ℕ
insert_user a tenant role email password_hash customer = do
  same_email ← gets (λ (db : AuthDb). count_where (has_email a email) db.users)
  throw_if (not (same_email == 0)) Error.conflict
  same_customer ← gets (λ (db : AuthDb). count_where (has_customer customer) db.users)
  throw_if (not (same_customer == 0)) Error.conflict
  id ← gets (λ (db : AuthDb). db.next_user_id)
  modify (with_user (user_row id tenant role email password_hash customer))
  pure id

abbrev pub has_org_number : Text → TenantRow → Bool
has_org_number org_number t = text_eq t.org_number org_number

abbrev pub with_tenant : RegisterInput → AuthDb → AuthDb
with_tenant input db = record db {
  next_tenant_id = suc db.next_tenant_id;
  tenants =
      db.tenants
      ++ record {
        id = db.next_tenant_id;
        name = input.company_name;
        org_number = input.org_number;
        is_active = true;
      }
        ∷ [];
}

abbrev pub insert_tenant : RegisterInput → Tx AuthDb ℕ
insert_tenant input = do
  same ← gets (λ (db : AuthDb). count_where (has_org_number input.org_number) db.tenants)
  throw_if (not (same == 0)) Error.conflict
  id ← gets (λ (db : AuthDb). db.next_tenant_id)
  modify (with_tenant input)
  pure id

abbrev pub write_tenant_created : ℕ → ℕ → AuthDb → AuthDb
write_tenant_created tenant user db = record db {
  outbox = db.outbox ++ record { tenant_id = tenant; admin_user_id = user } ∷ [];
}

-- The transaction of `register`. Its only errors are violated indexes.
unfoldable pub register_in_tx : TokenCalls → Addresses → RegisterInput → Tx AuthDb (Unit {0})
register_in_tx c a input = do
  tenant ← insert_tenant input
  user ←
      insert_user a tenant UserRole.admin (a.norm input.email) (c.hash_password input.password) none
  issue_token_row c user tenant TokenType.email_verification c.email_verification_ttl_seconds
  modify (write_tenant_created tenant user)
  modify (write_audit_log tenant user "tenant.registered")

-- The answer is the same whether or not the address or the company was known.
unfoldable pub register : TokenCalls → Addresses → RegisterInput → AuthDb → AuthDb
register c a input db = (begin (register_in_tx c a input) db).1

abbrev pub update_email : Addresses → ℕ → Text → Tx AuthDb (Unit {0})
update_email a id email = do
  same ← gets (λ (db : AuthDb). count_where (λ u. has_email a email u && not (u.id == id)) db.users)
  throw_if (not (same == 0)) Error.conflict
  modify (λ (db : AuthDb). record db {
    users = update_where (λ u. u.id == id) (λ u. record u { email = some email }) db.users;
  })

-- What `findCustomer` of billing-client.ts answers.
pub record InternalCustomer : Type 0 where
  pub id : ℕ
  pub name : String
  pub email : Text

-- A login for the customer, or a new link for one that was invited and has not accepted.
abbrev pub invite :
    TokenCalls → Addresses → ℕ → ℕ → ℕ → Text → Option UserRow → Tx AuthDb (Unit {0})
invite c a tenant admin customer email none = do
  user ← insert_user a tenant UserRole.customer email a.unknown_password (some customer)
  issue_token_row c user tenant TokenType.customer_invite c.customer_invite_ttl_seconds
  modify (write_audit_log tenant admin "customer.invited")
invite c a tenant admin customer email (some existing) = do
  throw_if (is_some existing.email_verified_at) Error.conflict
  revoke_tokens c.now existing.id TokenType.customer_invite
  update_email a existing.id email
  issue_token_row c existing.id tenant TokenType.customer_invite c.customer_invite_ttl_seconds
  modify (write_audit_log tenant admin "customer.invite_resent")

-- `tenant` and `admin` are those of the request.
unfoldable pub create_customer_invite :
    TokenCalls
    → Addresses
    → (ℕ → ℕ → Result (Option InternalCustomer))
    → ℕ
    → ℕ
    → CreateCustomerInviteInput
    → Tx AuthDb (Unit {0})
create_customer_invite c a find_customer tenant admin input = do
  customer ← or_throw (← lift (find_customer tenant input.customer_id)) Error.not_found
  existing ← gets (λ (db : AuthDb). find_first (is_portal_of input.customer_id) db.users)
  invite c a tenant admin input.customer_id (a.norm input.email) existing

unfoldable pub accept_customer_invite : TokenCalls → Text → Text → Tx AuthDb (Unit {0})
accept_customer_invite c token password = do
  row ←
      or_throw (← gets (find_token (c.hash_token token) TokenType.customer_invite))
        Error.bad_request
  throw_if (is_spent c.now row) Error.bad_request
  use_token c.now row
  modify (update_password row.user_id (c.hash_password password))
  modify (set_email_verified c.now row.user_id)
  modify (write_audit_log row.tenant_id row.user_id "customer.invite_accepted")
