-- ===== src/Auth/Throttle/Laws.antt =====
-- How services/auth/src/throttle.ts locks an address out.
use native.Mathlib.Nat.{one-le-pow}
use faktureringssystemet.Prelude.{
  ℕ, suc, ◌+◌, ◌-◌, ◌≤◌, ◌<◌, ◌≡◌, refl, ap, ◌∙◌, Bool, true, false, Option, none, some, List, [],
  ◌∷◌, arith, ltb, length, map, not, or_else, inl, inr, Option-cases,
}
use faktureringssystemet.Billing.Paging.Laws.{length-map}
use faktureringssystemet.Shared.Text.{Text}
use faktureringssystemet.Shared.Errors.{Error, ok, err}
use faktureringssystemet.Auth.Throttle.{
  LoginKeys, LoginUser, threshold, base_lockout_seconds, max_lockout_seconds, counter_ttl_seconds,
  lockout_seconds, is_locked, live_count, record_login_failure, assert_not_locked_out, login,
}

abbrev pub no_keys : LoginKeys
no_keys = record { failures = none; locked_until = none }

-- Failures at some times, the last one first.
abbrev pub fail_at : List ℕ → LoginKeys
fail_at [] = no_keys
fail_at (t ∷ ts) = record_login_failure t (fail_at ts)

-- Each failure comes within an hour of the one before.
abbrev pub WithinTheHour : ℕ → List ℕ → Type 0
WithinTheHour now [] = Unit
WithinTheHour now (t ∷ ts) = (now < t + counter_ttl_seconds) × WithinTheHour t ts

count_failures :
    (now : ℕ) (ts : List ℕ)
    → WithinTheHour now ts
    → live_count now (fail_at ts).failures ≡ length ts
unfolding record_login_failure
count_failures now [] h = refl
count_failures now (t ∷ ts) (h, hs) = let rest = count_failures t ts hs in ground arith

ltb-true : (a b : ℕ) → a < b → ltb a b ≡ true
ltb-true a b h = ground arith

ltb-false : (a b : ℕ) → b ≤ a → ltb a b ≡ false
ltb-false a b h = ground arith

locked_from :
    (now : ℕ) (ts : List ℕ)
    → WithinTheHour now ts
    → 4 ≤ length ts
    → (fail_at (now ∷ ts)).locked_until ≡ some (now + lockout_seconds (suc (length ts)))
unfolding record_login_failure
locked_from now ts h n = let c = count_failures now ts h in rw c (ground arith)

-- A lockout lasts from half a minute to a quarter of an hour.
lockout_seconds-bounds :
    (n : ℕ) → (base_lockout_seconds ≤ lockout_seconds n) × (lockout_seconds n ≤ max_lockout_seconds)
lockout_seconds-bounds n =
    let p = one-le-pow (n - threshold) 2 (omega arith) in (omega (arith, p), omega arith)

locked_out :
    (now : ℕ) (keys : LoginKeys)
    → is_locked now keys.locked_until ≡ true
    → assert_not_locked_out now keys ≡ err Error.too_many_requests
unfolding assert_not_locked_out
locked_out now keys h = rw h refl

login_refused :
    (verify : Text → Text → Bool) (dummy password : Text) (user : Option LoginUser) (now : ℕ)
    (keys : LoginKeys)
    → assert_not_locked_out now keys ≡ err Error.too_many_requests
    → login verify dummy now password user keys ≡ (err Error.too_many_requests, keys)
unfolding login
login_refused verify dummy password user now keys h = rw (login, h) refl

free_again :
    (now : ℕ) (keys : LoginKeys)
    → is_locked now keys.locked_until ≡ false
    → assert_not_locked_out now keys ≡ ok tt
unfolding assert_not_locked_out
free_again now keys h = rw h refl

failures_lock :
    (verify : Text → Text → Bool) (dummy password : Text) (user : Option LoginUser)
    (now d later : ℕ) (ts : List ℕ)
    → WithinTheHour now ts
    → 4 ≤ length ts
    → d < 30
    → (login verify dummy (now + d) password user (fail_at (now ∷ ts))
        ≡ (err Error.too_many_requests, fail_at (now ∷ ts)))
      × (assert_not_locked_out (now + 900 + later) (fail_at (now ∷ ts)) ≡ ok tt)
failures_lock verify dummy password user now d later ts h n k =
    let lock = locked_from now ts h n in
    let (low, high) = lockout_seconds-bounds (suc (length ts)) in
    let inside : is_locked (now + d) (fail_at (now ∷ ts)).locked_until ≡ true =
      ap (is_locked (now + d)) lock ∙ ltb-true _ _ (omega (arith, low, k)) in
    let outside : is_locked (now + 900 + later) (fail_at (now ∷ ts)).locked_until ≡ false =
      ap (is_locked (now + 900 + later)) lock ∙ ltb-false _ _ (omega (arith, high)) in
    (
      login_refused verify dummy password user (now + d) (fail_at (now ∷ ts))
          (locked_out (now + d) (fail_at (now ∷ ts)) inside),
      free_again (now + 900 + later) (fail_at (now ∷ ts)) outside,
    )

-- A login with a password, at a time, for the user that its address finds.
pub record Attempt : Type 0 where
  pub at : ℕ
  pub password : Text
  pub user : Option LoginUser

module _ (verify : Text → Text → Bool) (dummy : Text) where
  -- There is no such user, or the password does not pass.
  abbrev pub is_wrong : Attempt → Bool
  is_wrong a = elim a.user [
    | none ↦ true
    | some u ↦ not (verify a.password (or_else u.password_hash dummy))
  ]

  -- The keys of an address after some logins, the last one first.
  abbrev pub keys_after : List Attempt → LoginKeys
  keys_after [] = no_keys
  keys_after (a ∷ as_) = (login verify dummy a.at a.password a.user (keys_after as_)).1

  abbrev pub SoonAfter : ℕ → List Attempt → Type 0
  SoonAfter now [] = Unit
  SoonAfter now (a ∷ as_) = now < a.at + counter_ttl_seconds

  -- Every login is wrong, is made when the address is not locked out, and comes within an hour of the one before.
  abbrev pub WrongInTurn : List Attempt → Type 0
  WrongInTurn [] = Unit
  WrongInTurn (a ∷ as_) =
      (is_wrong a ≡ true)
      × (assert_not_locked_out a.at (keys_after as_) ≡ ok tt)
      × SoonAfter a.at as_
      × WrongInTurn as_

  wrong_login :
      (a : Attempt) (keys : LoginKeys)
      → is_wrong a ≡ true
      → assert_not_locked_out a.at keys ≡ ok tt
      → login verify dummy a.at a.password a.user keys
        ≡ (err Error.unauthorized, record_login_failure a.at keys)
  unfolding login
  wrong_login a keys wrong free = elim (Option-cases a.user) [
    | inl missing ↦ rw (login, free, missing) refl
    | inr (u, known) ↦
        let bad : verify a.password (or_else u.password_hash dummy) ≡ false =
          ground (arith, known, wrong) in
        rw (login, free, known, bad) refl
  ]

  wrong_keys :
      (as_ : List Attempt) → WrongInTurn as_ → keys_after as_ ≡ fail_at (map (λ a. a.at) as_)
  wrong_keys [] h = refl
  wrong_keys (a ∷ as_) (wrong, free, soon, rest) =
      ap (λ x. x.1) (wrong_login a (keys_after as_) wrong free)
      ∙ ap (record_login_failure a.at) (wrong_keys as_ rest)

  wrong_times :
      (now : ℕ) (as_ : List Attempt)
      → SoonAfter now as_
      → WrongInTurn as_
      → WithinTheHour now (map (λ a. a.at) as_)
  wrong_times now [] s h = tt
  wrong_times now (a ∷ as_) s (wrong, free, soon, rest) = (s, wrong_times a.at as_ soon rest)

  -- After five or more wrong logins in a row, each made when the address was not locked out and within an hour of the
  -- one before, from no keys on: the last of them was refused as wrong, every login within half a minute of it is
  -- refused, also with the right password, and changes nothing; a quarter of an hour after it, or later, an address
  -- that was left alone is not locked out any more.
  pub failures_lock_out :
      (a : Attempt) (as_ : List Attempt) (password : Text) (user : Option LoginUser) (d later : ℕ)
      → WrongInTurn (a ∷ as_)
      → 4 ≤ length as_
      → d < 30
      → ((login verify dummy a.at a.password a.user (keys_after as_)).0 ≡ err Error.unauthorized)
        × (login verify dummy (a.at + d) password user (keys_after (a ∷ as_))
            ≡ (err Error.too_many_requests, keys_after (a ∷ as_)))
        × (assert_not_locked_out (a.at + 900 + later) (keys_after (a ∷ as_)) ≡ ok tt)
  failures_lock_out a as_ password user d later (wrong, free, soon, rest) n k =
      let keys = wrong_keys (a ∷ as_) (wrong, free, soon, rest) in
      let times = wrong_times a.at as_ soon rest in
      let long : 4 ≤ length (map (λ x. x.at) as_) = rw (length-map (λ x. x.at) as_) n in
      let (refused, after) =
        failures_lock verify dummy password user a.at d later (map (λ x. x.at) as_) times long k in
      (ap (λ x. x.0) (wrong_login a (keys_after as_) wrong free), rw keys refused, rw keys after)
