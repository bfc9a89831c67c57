-- ===== src/Auth/Tokens.antt =====
-- The tokens of services/auth/src/auth/repository.ts: sessions, and links that verify an address or reset a
-- password. Times are in milliseconds; hashes and the text of a new token are arguments.
use faktureringssystemet.Prelude.{
  ℕ, suc, ◌+◌, ◌*◌, Bool, true, false, ◌&&◌, not, Option, none, some, List, [], ◌∷◌, ◌++◌, ◌==◌,
  is_some, find_first, update_where, count_where, String,
}
use faktureringssystemet.Shared.Text.{Text, text_eq}
use faktureringssystemet.Shared.Errors.{ok}
use faktureringssystemet.Shared.Tx.{Tx, modify}

pub data TokenType : Type 0 where
  refresh email_verification password_reset customer_invite : TokenType

pub data UserRole : Type 0 where
  admin customer : UserRole

pub record UserTokenRow : Type 0 where
  pub id : ℕ
  pub tenant_id : ℕ
  pub user_id : ℕ
  pub token_type : TokenType
  pub token_hash : Text
  pub expires_at : ℕ
  pub used_at : Option ℕ

-- The columns of `users` that these calls read and write.
pub record UserRow : Type 0 where
  pub id : ℕ
  pub tenant_id : ℕ
  pub role : UserRole
  pub email : Option Text
  pub password_hash : Option Text
  pub customer_id : Option ℕ
  pub email_verified_at : Option ℕ

pub record TenantRow : Type 0 where
  pub id : ℕ
  pub name : String
  pub org_number : Text
  pub is_active : Bool

-- A row of `user_company_links`.
pub record CompanyLink : Type 0 where
  pub user_id : ℕ
  pub tenant_id : ℕ
  pub customer_id : ℕ

pub record AuditEntry : Type 0 where
  pub tenant_id : ℕ
  pub actor_user_id : ℕ
  pub action : String

-- The event "tenant.created" in the outbox.
pub record TenantCreated : Type 0 where
  pub tenant_id : ℕ
  pub admin_user_id : ℕ

pub record AuthDb : Type 0 where
  pub next_token_id : ℕ
  pub next_user_id : ℕ
  pub next_tenant_id : ℕ
  pub user_tokens : List UserTokenRow
  pub users : List UserRow
  pub tenants : List TenantRow
  pub links : List CompanyLink
  pub outbox : List TenantCreated
  pub audit_log : List AuditEntry

abbrev pub type_eq : TokenType → TokenType → Bool
type_eq TokenType.refresh TokenType.refresh = true
type_eq TokenType.email_verification TokenType.email_verification = true
type_eq TokenType.password_reset TokenType.password_reset = true
type_eq TokenType.customer_invite TokenType.customer_invite = true
type_eq s t = false

abbrev pub is_token : Text → TokenType → UserTokenRow → Bool
is_token hash type r = text_eq r.token_hash hash && type_eq r.token_type type

abbrev pub find_token : Text → TokenType → AuthDb → Option UserTokenRow
find_token hash type db = find_first (is_token hash type) db.user_tokens

abbrev pub as_used : ℕ → UserTokenRow → UserTokenRow
as_used now r = record r { used_at = some now }

-- WHERE id = … AND used_at IS NULL
abbrev pub is_unused_id : ℕ → UserTokenRow → Bool
is_unused_id id r = r.id == id && not (is_some r.used_at)

-- WHERE user_id = … AND token_type = … AND used_at IS NULL
abbrev pub is_unused_of : ℕ → TokenType → UserTokenRow → Bool
is_unused_of user type r = r.user_id == user && type_eq r.token_type type && not (is_some r.used_at)

-- The number of rows that were marked.
abbrev pub mark_token_used : ℕ → ℕ → Tx AuthDb ℕ
mark_token_used now id db = ok (
  count_where (is_unused_id id) db.user_tokens,
  record db { user_tokens = update_where (is_unused_id id) (as_used now) db.user_tokens },
)

abbrev pub revoked : ℕ → ℕ → TokenType → AuthDb → AuthDb
revoked now user type db = record db {
  user_tokens = update_where (is_unused_of user type) (as_used now) db.user_tokens;
}

abbrev pub revoke_tokens : ℕ → ℕ → TokenType → Tx AuthDb (Unit {0})
revoke_tokens now user type = modify (revoked now user type)

abbrev pub insert_token : ℕ → ℕ → TokenType → Text → ℕ → AuthDb → AuthDb
insert_token tenant user type hash expires db = record db {
  next_token_id = suc db.next_token_id;
  user_tokens =
      db.user_tokens
      ++ record {
        id = db.next_token_id;
        tenant_id = tenant;
        user_id = user;
        token_type = type;
        token_hash = hash;
        expires_at = expires;
        used_at = none;
      }
        ∷ [];
}

abbrev pub write_audit_log : ℕ → ℕ → String → AuthDb → AuthDb
write_audit_log tenant user action db = record db {
  audit_log =
      db.audit_log ++ record { tenant_id = tenant; actor_user_id = user; action = action } ∷ [];
}

-- What the calls take from outside: the hash, the token that is made, the time, and the times to live in
-- seconds.
pub record TokenCalls : Type 0 where
  pub hash_token : Text → Text
  pub hash_password : Text → Text
  pub generate_token : Text
  pub now : ℕ
  pub refresh_ttl_seconds : ℕ
  pub password_reset_ttl_seconds : ℕ
  pub email_verification_ttl_seconds : ℕ
  pub customer_invite_ttl_seconds : ℕ

abbrev pub issue_token_row : TokenCalls → ℕ → ℕ → TokenType → ℕ → Tx AuthDb Text
issue_token_row c user tenant type ttl_seconds db = ok (
  c.generate_token,
  insert_token tenant user type (c.hash_token c.generate_token) (c.now + ttl_seconds * 1000) db,
)
