-- ===== src/Billing/Idempotency.antt =====
-- services/billing/src/idempotency.ts: the claim on a key and the work under it. Times are in
-- milliseconds; numbers stand for the endpoint, the hash of the request and the JSON body of an answer,
-- which are only compared and stored. A row cannot vanish between the INSERT that meets it and the SELECT
-- after it here. The clean-up is that of automation/repository.ts.
pub mod Stored
pub mod Laws
mod Tests
use faktureringssystemet.Prelude.{
  ℕ, ◌+◌, ◌-◌, ◌*◌, Bool, true, false, ◌&&◌, Option, none, some, List, [], ◌∷◌, ◌++◌, ltb, ◌==◌,
  if◌then◌else◌, find_first, update_where, delete_where,
}
use faktureringssystemet.Shared.Errors.{Error, Result, ok, err}
use faktureringssystemet.Shared.Tx.{Tx, begin}

pub record IdempotencyOutcome : Type 0 where
  pub status : ℕ
  pub body : ℕ

-- `completed` with the answer, which may be missing.
pub data KeyState : Type 0 where
  in_progress : KeyState
  completed : Option IdempotencyOutcome → KeyState

pub record IdempotencyRow : Type 0 where
  pub tenant_id : ℕ
  pub key : ℕ
  pub endpoint : ℕ
  pub request_hash : ℕ
  pub state : KeyState
  pub created_at : ℕ
  pub expires_at : ℕ

pub record Request : Type 0 where
  pub tenant_id : ℕ
  pub key : ℕ
  pub endpoint : ℕ
  pub request_hash : ℕ

-- TTL_HOURS, in milliseconds.
abbrev pub ttl : ℕ
ttl = 24 * 3600000

-- STALE_MINUTES
abbrev pub stale_minutes : ℕ
stale_minutes = 10

pub data ClaimResult : Type 0 where
  fresh : ClaimResult
  replay : IdempotencyOutcome → ClaimResult

abbrev pub is_key : Request → IdempotencyRow → Bool
is_key q r = r.tenant_id == q.tenant_id && r.key == q.key

abbrev pub claimed_row : ℕ → Request → IdempotencyRow
claimed_row now q = record {
  tenant_id = q.tenant_id;
  key = q.key;
  endpoint = q.endpoint;
  request_hash = q.request_hash;
  state = KeyState.in_progress;
  created_at = now;
  expires_at = now + ttl;
}

-- Taking over a claim that was abandoned.
abbrev pub reclaimed : ℕ → Request → IdempotencyRow → IdempotencyRow
reclaimed now q r = record r {
  request_hash = q.request_hash;
  endpoint = q.endpoint;
  created_at = now;
  expires_at = now + ttl;
}

abbrev stored : Option IdempotencyOutcome → Result ClaimResult
stored none = err Error.internal_error
stored (some o) = ok (replay o)

abbrev decide_completed : Request → IdempotencyRow → Option IdempotencyOutcome → Result ClaimResult
decide_completed q r answer =
    if r.request_hash == q.request_hash then stored answer else err Error.unprocessable_entity

-- `claim` on a key that is there. Each statement is committed by itself.
abbrev pub claim_existing :
    ℕ
    → Request
    → List IdempotencyRow
    → IdempotencyRow
    → KeyState
    → Result ClaimResult × List IdempotencyRow
claim_existing now q keys r (completed answer) = (decide_completed q r answer, keys)
claim_existing now q keys r in_progress =
    if ltb (now - r.created_at) (stale_minutes * 60000)
    then (err Error.conflict, keys)
    else (ok fresh, update_where (is_key q) (reclaimed now q) keys)

abbrev pub claim_met :
    ℕ → Request → List IdempotencyRow → IdempotencyRow → Result ClaimResult × List IdempotencyRow
claim_met now q keys r =
    if r.endpoint == q.endpoint
    then claim_existing now q keys r r.state
    else (err Error.unprocessable_entity, keys)

unfoldable pub claim : ℕ → Request → List IdempotencyRow → Result ClaimResult × List IdempotencyRow
claim now q keys = elim (find_first (is_key q) keys) [
  | none ↦ (ok fresh, keys ++ claimed_row now q ∷ [])
  | some r ↦ claim_met now q keys r
]

-- `cleanupExpiredIdempotencyKeys`
abbrev pub has_expired : ℕ → IdempotencyRow → Bool
has_expired now r = ltb r.expires_at now

unfoldable pub cleanup_expired_idempotency_keys : ℕ → List IdempotencyRow → List IdempotencyRow
cleanup_expired_idempotency_keys now keys = delete_where (has_expired now) keys

pub record Answer : Type 0 where
  pub outcome : IdempotencyOutcome
  pub replayed : Bool

abbrev pub completed_row : IdempotencyOutcome → IdempotencyRow → IdempotencyRow
completed_row o r = record r { state = completed (some o) }

abbrev pub is_claimed : Request → IdempotencyRow → Bool
is_claimed q r = is_key q r && elim r.state [ in_progress ↦ true | _ ↦ false ]

-- The rest of the database and the table of keys.
pub record World (S : Type 0) : Type 0 where
  pub rest : S
  pub keys : List IdempotencyRow

module _ {S : Type 0} where
  -- The work and the completion of the key are one transaction; a failed work frees the key.
  abbrev pub finish :
      Request → List IdempotencyRow → Result IdempotencyOutcome × S → Result Answer × World S
  finish q keys (ok o, rest) = (
    ok (record { outcome = o; replayed = false }),
    record { rest = rest; keys = update_where (is_key q) (completed_row o) keys },
  )
  finish q keys (err e, rest) =
      (err e, record { rest = rest; keys = delete_where (is_claimed q) keys })

  abbrev pub after_claim :
      Request
      → Tx S IdempotencyOutcome
      → S
      → Result ClaimResult × List IdempotencyRow
      → Result Answer × World S
  after_claim q run rest (err e, keys) = (err e, record { rest = rest; keys = keys })
  after_claim q run rest (ok (replay o), keys) =
      (ok (record { outcome = o; replayed = true }), record { rest = rest; keys = keys })
  after_claim q run rest (ok fresh, keys) = finish q keys (begin run rest)

  unfoldable pub with_idempotency :
      ℕ → Request → Tx S IdempotencyOutcome → World S → Result Answer × World S
  with_idempotency now q run w = after_claim q run w.rest (claim now q w.keys)
