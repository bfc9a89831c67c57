-- ===== src/Auth/Throttle.antt =====
-- services/auth/src/throttle.ts, and `login` of auth/services.ts, which it guards: the keys of one e-mail
-- address, which no other address shares. Times are in seconds; checking a password is a parameter, and the
-- session that is issued is left out.
pub mod Laws
use faktureringssystemet.Prelude.{
  ℕ, suc, ◌+◌, ◌-◌, ◌*◌, ◌^◌, Bool, true, false, ◌&&◌, not, Option, none, some, leb, ltb, min,
  or_else, if◌then◌else◌,
}
use faktureringssystemet.Shared.Text.{Text}
use faktureringssystemet.Shared.Errors.{Error, Result, ok, err}

-- THRESHOLD
abbrev pub threshold : ℕ
threshold = 5

-- BASE_LOCKOUT_SECONDS
abbrev pub base_lockout_seconds : ℕ
base_lockout_seconds = 30

-- MAX_LOCKOUT_SECONDS
abbrev pub max_lockout_seconds : ℕ
max_lockout_seconds = 900

-- COUNTER_TTL_SECONDS
abbrev pub counter_ttl_seconds : ℕ
counter_ttl_seconds = 3600

pub record Counter : Type 0 where
  pub count : ℕ
  pub expires : ℕ

-- The counter and the end of the lockout, which are gone when they expire.
pub record LoginKeys : Type 0 where
  pub failures : Option Counter
  pub locked_until : Option ℕ

abbrev pub is_locked : ℕ → Option ℕ → Bool
is_locked now none = false
is_locked now (some end) = ltb now end

unfoldable pub assert_not_locked_out : ℕ → LoginKeys → Result (Unit {0})
assert_not_locked_out now keys =
    if is_locked now keys.locked_until then err Error.too_many_requests else ok tt

-- redis.incr
abbrev pub live_count : ℕ → Option Counter → ℕ
live_count now none = 0
live_count now (some c) = if ltb now c.expires then c.count else 0

abbrev pub lockout_seconds : ℕ → ℕ
lockout_seconds failures =
    min (base_lockout_seconds * 2 ^ (failures - threshold)) max_lockout_seconds

unfoldable pub record_login_failure : ℕ → LoginKeys → LoginKeys
record_login_failure now keys =
    let failures = suc (live_count now keys.failures) in
    record {
      failures = some (record { count = failures; expires = now + counter_ttl_seconds });
      locked_until =
          if leb threshold failures
          then some (now + lockout_seconds failures)
          else keys.locked_until;
    }

unfoldable pub clear_login_failures : LoginKeys → LoginKeys
clear_login_failures keys = record { failures = none; locked_until = none }

pub record LoginUser : Type 0 where
  pub password_hash : Option Text
  pub is_verified : Bool
  pub is_tenant_active : Bool

-- The hash that the password is checked against also where there is no user.
abbrev pub hash_of : Text → Option LoginUser → Text
hash_of dummy none = dummy
hash_of dummy (some u) = or_else u.password_hash dummy

abbrev pub admit : LoginKeys → LoginUser → Result (Unit {0}) × LoginKeys
admit keys u =
    if not u.is_verified
    then (err Error.forbidden, keys)
    else if not u.is_tenant_active
    then (err Error.forbidden, keys)
    else (ok tt, clear_login_failures keys)

abbrev pub admit_user : ℕ → LoginKeys → Bool → Option LoginUser → Result (Unit {0}) × LoginKeys
admit_user now keys password_ok none = (err Error.unauthorized, record_login_failure now keys)
admit_user now keys password_ok (some u) =
    if password_ok then admit keys u else (err Error.unauthorized, record_login_failure now keys)

unfoldable pub login :
    (Text → Text → Bool)
    → Text
    → ℕ
    → Text
    → Option LoginUser
    → LoginKeys
    → Result (Unit {0}) × LoginKeys
login verify dummy now password user keys = elim (assert_not_locked_out now keys) [
  | err e ↦ (err e, keys)
  | ok _ ↦ admit_user now keys (verify password (hash_of dummy user)) user
]
