-- ===== src/Billing/Idempotency/Tests.antt =====
-- A request that is sent twice.
use faktureringssystemet.Prelude.{ℕ, ◌+◌, ◌≡◌, refl, true, false, [], ◌∷◌, List}
use faktureringssystemet.Shared.Errors.{ok}
use faktureringssystemet.Shared.Tx.{Tx}
use faktureringssystemet.Billing.Idempotency.{
  IdempotencyOutcome, Request, Answer, World, claimed_row, completed_row, claim, with_idempotency,
  cleanup_expired_idempotency_keys,
}
use faktureringssystemet.Billing.Idempotency.Laws.{
  Event, request, clean_up, all_happened, with_idempotency_again,
}

abbrev send_request : Request
send_request = record { tenant_id = 1; key = 77; endpoint = 2; request_hash = 5 }

-- A work that counts how often it is done.
abbrev work : Tx ℕ IdempotencyOutcome
work n = ok (record { status = 200; body = n }, n + 1)

abbrev unused : World ℕ
unused = record { rest = 0; keys = [] }

abbrev used : World ℕ
used = record {
  rest = 1;
  keys = completed_row (record { status = 200; body = 0 }) (claimed_row 1000 send_request) ∷ [];
}

abbrev first_answer : Answer
first_answer = record { outcome = record { status = 200; body = 0 }; replayed = false }

first_run : with_idempotency 1000 send_request work unused ≡ (ok first_answer, used)
unfolding with_idempotency claim
first_run = refl

-- Another request, and the nightly clean-up within the day.
abbrev between : List (Event ℕ)
between = request 2000 (record send_request { key = 78 }) work ∷ clean_up 86400000 ∷ []

with_idempotency_again_example :
    with_idempotency 90000000 send_request work (all_happened between used)
    ≡ (ok (record { outcome = first_answer.outcome; replayed = true }), all_happened between used)
with_idempotency_again_example =
    with_idempotency_again 1000 90000000 send_request work work unused used first_answer between
      first_run refl refl

other_run : (all_happened between used).rest ≡ 2
unfolding with_idempotency claim
other_run = refl

-- A clean-up after the day frees the key.
freed_run : (all_happened (clean_up 86401001 ∷ []) used).keys ≡ []
unfolding cleanup_expired_idempotency_keys
freed_run = refl
