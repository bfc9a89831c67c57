-- ===== src/Billing/Idempotency/Laws.antt =====
-- What a key promises to a client that sends a request again.
use faktureringssystemet.Prelude.{
  ℕ, ◌≡◌, refl, sym, ap, ◌∙◌, false, ◌&&◌, Bool, ◌+◌, leb, ◌*◌, not, inl, inr, true, some, List, [],
  ◌∷◌, arith, if◌then◌else◌, find_first, update_where, find_first_holds,
}
use faktureringssystemet.Prelude.Rows.{find_updated}
use faktureringssystemet.Shared.Errors.{ok, Result-cases}
use faktureringssystemet.Shared.Tx.{Tx, begin}
use faktureringssystemet.Billing.Idempotency.{
  IdempotencyOutcome, completed, Request, fresh, replay, is_key, claim, after_claim, finish, Answer,
  completed_row, World, ttl, is_claimed, has_expired, cleanup_expired_idempotency_keys,
  with_idempotency,
}
use faktureringssystemet.Billing.Idempotency.Stored.{
  claim_stored, claim_granted, update-IsStored, delete-IsStored, claim-IsStored, IsStored, same_key,
}

-- What may happen in between: requests under other keys, and the clean-up at some time.
pub data Event (S : Type 0) : Type 0 where
  request : ℕ → Request → Tx S IdempotencyOutcome → Event S
  clean_up : ℕ → Event S

module _ {S : Type 0} where
  replays :
      (later : ℕ) (q : Request) (run : Tx S IdempotencyOutcome) (w : World S)
      (o : IdempotencyOutcome)
      → claim later q w.keys ≡ (ok (replay o), w.keys)
      → with_idempotency later q run w ≡ (ok (record { outcome = o; replayed = true }), w)
  unfolding with_idempotency
  replays later q run w o h = ap (after_claim q run w.rest) h

  abbrev pub happened : Event S → World S → World S
  happened (request now p run) w = (with_idempotency now p run w).1
  happened (clean_up now) w = record w { keys = cleanup_expired_idempotency_keys now w.keys }

  abbrev pub all_happened : List (Event S) → World S → World S
  all_happened [] w = w
  all_happened (e ∷ es) w = all_happened es (happened e w)

  -- No other request has the key, and the clean-up is not after a time.
  abbrev pub leaves : Request → ℕ → Event S → Bool
  leaves q until (request now p run) = not (same_key q p)
  leaves q until (clean_up now) = leb now until

  abbrev pub all_leave : Request → ℕ → List (Event S) → Bool
  all_leave q until [] = true
  all_leave q until (e ∷ es) = leaves q until e && all_leave q until es

  request-IsStored :
      (now : ℕ) (q p : Request) (run : Tx S IdempotencyOutcome) (o : IdempotencyOutcome) (until : ℕ)
      (w : World S)
      → same_key q p ≡ false
      → IsStored q o until w.keys
      → IsStored q o until (with_idempotency now p run w).1.keys
  unfolding with_idempotency
  request-IsStored now q p run o until w other s =
      let c = claim-IsStored now q p o until w.keys other s in
      let keys = (claim now p w.keys).1 in
      elim (Result-cases (claim now p w.keys).0) [
        | inr (e, bad) ↦ rw bad c
        | inl (replay a, again) ↦ rw again c
        | inl (fresh, new) ↦ elim (Result-cases (run w.rest)) [
          | inl ((a, rest), good) ↦
              rw (new, good)
                (update-IsStored q p o until (completed_row a) keys other (λ r. refl) c)
          | inr (e, bad) ↦
              let k = find_first_holds (is_key q) keys c.found in
              let spared : is_claimed p c.row ≡ false = ground (arith, k, other) in
              rw (new, bad) (delete-IsStored q o until (is_claimed p) keys c spared)
        ]
      ]

  happened-IsStored :
      (q : Request) (o : IdempotencyOutcome) (until : ℕ) (e : Event S) (w : World S)
      → leaves q until e ≡ true
      → IsStored q o until w.keys
      → IsStored q o until (happened e w).keys
  unfolding cleanup_expired_idempotency_keys
  happened-IsStored q o until (request now p run) w h s =
      request-IsStored now q p run o until w (ground (arith, h)) s
  happened-IsStored q o until (clean_up now) w h s =
      let k = s.expires_at in
      delete-IsStored q o until (has_expired now) w.keys s (ground (arith, h, k))

  all_happened-IsStored :
      (q : Request) (o : IdempotencyOutcome) (until : ℕ) (es : List (Event S)) (w : World S)
      → all_leave q until es ≡ true
      → IsStored q o until w.keys
      → IsStored q o until (all_happened es w).keys
  all_happened-IsStored q o until [] w h s = s
  all_happened-IsStored q o until (e ∷ es) w h s =
      all_happened-IsStored q o until es (happened e w) (ground (arith, h))
        (happened-IsStored q o until e w (ground (arith, h)) s)

  -- A work that is done leaves its answer under the key, for a day.
  work_done :
      (now : ℕ) (q : Request) (run : Tx S IdempotencyOutcome) (w w' : World S) (a : Answer)
      → claim now q w.keys ≡ (ok fresh, (claim now q w.keys).1)
      → with_idempotency now q run w ≡ (ok a, w')
      → IsStored q a.outcome (now + ttl) w'.keys
  unfolding with_idempotency
  work_done now q run w w' a c h =
      let (r, found, e, k, kept) = claim_granted now q w.keys (claim now q w.keys).1 c in
      let g : finish q (claim now q w.keys).1 (begin run w.rest) ≡ (ok a, w') =
        sym (ap (after_claim q run w.rest) c) ∙ h in
      elim (Result-cases (run w.rest)) [
        | inr (x, bad) ↦ absurd (ground arith)
        | inl ((o, rest), good) ↦
            let f =
              find_updated (is_key q) (is_key q) (completed_row o) (claim now q w.keys).1
                (λ x. refl) found in
            let p = find_first_holds (is_key q) (claim now q w.keys).1 found in
            let keys : w'.keys ≡ update_where (is_key q) (completed_row o) (claim now q w.keys).1 =
              ground arith in
            let same : a.outcome ≡ o = ground arith in
            record {
              row = completed_row o r;
              found =
                  ap (find_first (is_key q)) keys
                  ∙ f
                  ∙ ap (λ b. some (if b then completed_row o r else r)) p;
              endpoint = e;
              request_hash = k;
              state = ap (λ x. completed (some x)) (sym same);
              expires_at = kept;
            }
      ]

  -- An answer that is not a replay came from a claim that was granted.
  answered_fresh :
      (now : ℕ) (q : Request) (run : Tx S IdempotencyOutcome) (w w' : World S) (a : Answer)
      → with_idempotency now q run w ≡ (ok a, w')
      → a.replayed ≡ false
      → claim now q w.keys ≡ (ok fresh, (claim now q w.keys).1)
  unfolding with_idempotency
  answered_fresh now q run w w' a h new = elim (Result-cases (claim now q w.keys).0) [
    | inr (e, bad) ↦
        let g = sym (ap (λ c. after_claim q run w.rest (c, (claim now q w.keys).1)) bad) ∙ h in
        absurd (ground arith)
    | inl (fresh, c) ↦ ap (λ x. (x, (claim now q w.keys).1)) c
    | inl (replay o, c) ↦
        let g = sym (ap (λ x. after_claim q run w.rest (x, (claim now q w.keys).1)) c) ∙ h in
        absurd (ground (arith, g, new))
  ]

  -- A request whose work was done is answered the same when it is sent again, whatever work stands behind it then, and
  -- nothing is done again: the database stays as it is. In between there may be any requests under other keys, also
  -- ones that fail, and clean-ups, as long as none of these is more than 24 hours after the request.
  pub with_idempotency_again :
      (now later : ℕ) (q : Request) (run run' : Tx S IdempotencyOutcome) (w w' : World S)
      (a : Answer) (es : List (Event S))
      → with_idempotency now q run w ≡ (ok a, w')
      → a.replayed ≡ false
      → all_leave q (now + 24 * 3600000) es ≡ true
      → with_idempotency later q run' (all_happened es w')
        ≡ (ok (record { outcome = a.outcome; replayed = true }), all_happened es w')
  with_idempotency_again now later q run run' w w' a es h new leave =
      let done = work_done now q run w w' a (answered_fresh now q run w w' a h new) h in
      let s = all_happened-IsStored q a.outcome (now + ttl) es w' leave done in
      replays later q run' (all_happened es w') a.outcome (
        claim_stored later q (all_happened es w').keys s.row a.outcome s.found s.endpoint
          s.request_hash s.state)
