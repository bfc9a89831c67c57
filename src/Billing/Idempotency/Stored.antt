-- ===== src/Billing/Idempotency/Stored.antt =====
-- The rows of services/billing/src/idempotency.ts: what a claim leaves and what keeps an answer.
use faktureringssystemet.Prelude.{
  ℕ, ◌≡◌, refl, ap, ◌∙◌, false, ◌&&◌, Bool, ◌==◌, ◌+◌, ◌++◌, ltb, ◌*◌, ◌-◌, delete_where,
  Bool-cases, find_first-append, inl, inr, ◌⊎◌, Option, some, List, [], ◌∷◌, arith, find_first,
  update_where, Option-cases, find_first_holds,
}
use faktureringssystemet.Prelude.Rows.{find_updated, find_first-append_none}
use faktureringssystemet.Shared.Errors.{ok}
use faktureringssystemet.Billing.Idempotency.{
  IdempotencyOutcome, KeyState, in_progress, completed, IdempotencyRow, Request, fresh, replay,
  is_key, claimed_row, reclaimed, claim, ttl, stale_minutes,
}

state_cases :
    (k : KeyState) → (k ≡ in_progress) ⊎ ((a : Option IdempotencyOutcome) × (k ≡ completed a))
state_cases in_progress = inl refl
state_cases (completed a) = inr (a, refl)

pub claim_stored :
    (now : ℕ) (q : Request) (keys : List IdempotencyRow) (r : IdempotencyRow)
    (o : IdempotencyOutcome)
    → find_first (is_key q) keys ≡ some r
    → r.endpoint ≡ q.endpoint
    → r.request_hash ≡ q.request_hash
    → r.state ≡ completed (some o)
    → claim now q keys ≡ (ok (replay o), keys)
unfolding claim
claim_stored now q keys r o found e h k = ground arith

-- A claim that is granted leaves a row of the request under the key.
pub claim_granted :
    (now : ℕ) (q : Request) (keys keys' : List IdempotencyRow)
    → claim now q keys ≡ (ok fresh, keys')
    → (r : IdempotencyRow) × (find_first (is_key q) keys' ≡ some r)
      × (r.endpoint ≡ q.endpoint)
      × (r.request_hash ≡ q.request_hash)
      × (r.expires_at ≡ now + ttl)
unfolding claim
claim_granted now q keys keys' h = elim (Option-cases (find_first (is_key q) keys)) [
  | inl new ↦
      let e = find_first-append_none (is_key q) keys (claimed_row now q ∷ []) new in
      (claimed_row now q, ground arith, refl, refl, refl)
  | inr (r, found) ↦
      let e = find_updated (is_key q) (is_key q) (reclaimed now q) keys (λ x. refl) found in
      let k = find_first_holds (is_key q) keys found in
      elim (state_cases r.state) [
        | inl s ↦ (reclaimed now q r, ground arith, refl, refl, refl)
        | inr (a, s) ↦ absurd (ground arith)
      ]
]

-- The row under a request's key, with the answer, and until when it is kept at least.
pub record IsStored (q : Request) (o : IdempotencyOutcome) (until : ℕ) (keys : List IdempotencyRow)
    : Type 0 where
  pub row : IdempotencyRow
  pub found : find_first (is_key q) keys ≡ some row
  pub endpoint : row.endpoint ≡ q.endpoint
  pub request_hash : row.request_hash ≡ q.request_hash
  pub state : row.state ≡ completed (some o)
  pub expires_at : row.expires_at ≡ until

abbrev pub same_key : Request → Request → Bool
same_key q p = p.tenant_id == q.tenant_id && p.key == q.key

-- A row that a deletion does not hit is still the first of its test.
find_spared :
    {A : Type 0} (q p : A → Bool) (xs : List A) (r : A)
    → find_first q xs ≡ some r
    → p r ≡ false
    → find_first q (delete_where p xs) ≡ some r
find_spared q p [] r h k = absurd (ground arith)
find_spared q p (x ∷ xs) r h k = elim (Bool-cases (q x)) [
  | inl own ↦
      let same : x ≡ r = ground (arith, h, own) in
      let stays : p x ≡ false = rw same k in rw (stays, own) (ap some same)
  | inr other ↦
      let rest = find_spared q p xs r (ground (arith, h, other)) k in
      elim (Bool-cases (p x)) [ inl gone ↦ rw gone rest | inr stays ↦ rw (stays, other) rest ]
]

-- Changing rows of another key keeps the row.
pub update-IsStored :
    (q p : Request) (o : IdempotencyOutcome) (until : ℕ) (f : IdempotencyRow → IdempotencyRow)
    (keys : List IdempotencyRow)
    → same_key q p ≡ false
    → ((r : IdempotencyRow) → is_key q (f r) ≡ is_key q r)
    → IsStored q o until keys
    → IsStored q o until (update_where (is_key p) f keys)
update-IsStored q p o until f keys other keeps s =
    let e = find_updated (is_key q) (is_key p) f keys keeps s.found in
    let k = find_first_holds (is_key q) keys s.found in
    let miss : is_key p s.row ≡ false = ground (arith, k, other) in
    record {
      row = s.row;
      found = e ∙ rw miss refl;
      endpoint = s.endpoint;
      request_hash = s.request_hash;
      state = s.state;
      expires_at = s.expires_at;
    }

pub delete-IsStored :
    (q : Request) (o : IdempotencyOutcome) (until : ℕ) (p : IdempotencyRow → Bool)
    (keys : List IdempotencyRow) (s : IsStored q o until keys)
    → p s.row ≡ false
    → IsStored q o until (delete_where p keys)
delete-IsStored q o until p keys s spared = record {
  row = s.row;
  found = find_spared (is_key q) p keys s.row s.found spared;
  endpoint = s.endpoint;
  request_hash = s.request_hash;
  state = s.state;
  expires_at = s.expires_at;
}

-- What a claim makes of the keys.
claim_keys :
    (now : ℕ) (p : Request) (keys : List IdempotencyRow)
    → ((claim now p keys).1 ≡ keys ++ claimed_row now p ∷ [])
      ⊎ (((claim now p keys).1 ≡ keys)
          ⊎ ((claim now p keys).1 ≡ update_where (is_key p) (reclaimed now p) keys))
unfolding claim
claim_keys now p keys = elim (Option-cases (find_first (is_key p) keys)) [
  | inl new ↦ inl (rw (claim, new) refl)
  | inr (r, met) ↦ inr (elim (Bool-cases (r.endpoint == p.endpoint)) [
    | inr wrong ↦ inl (rw (claim, met, wrong) refl)
    | inl here ↦ elim (state_cases r.state) [
      | inr (a, done) ↦ inl (rw (claim, met, here, done) refl)
      | inl going ↦ elim (Bool-cases (ltb (now - r.created_at) (stale_minutes * 60000))) [
        | inl young ↦ inl (rw (claim, met, here, going, young) refl)
        | inr stale ↦ inr (rw (claim, met, here, going, stale) refl)
      ]
    ]
  ])
]

pub claim-IsStored :
    (now : ℕ) (q p : Request) (o : IdempotencyOutcome) (until : ℕ) (keys : List IdempotencyRow)
    → same_key q p ≡ false
    → IsStored q o until keys
    → IsStored q o until (claim now p keys).1
claim-IsStored now q p o until keys other s = elim (claim_keys now p keys) [
  | inl new ↦ rw new (record {
    row = s.row;
    found = find_first-append (is_key q) keys (claimed_row now p ∷ []) s.found;
    endpoint = s.endpoint;
    request_hash = s.request_hash;
    state = s.state;
    expires_at = s.expires_at;
  })
  | inr (inl same) ↦ rw same s
  | inr (inr taken) ↦
      rw taken (update-IsStored q p o until (reclaimed now p) keys other (λ r. refl) s)
]
