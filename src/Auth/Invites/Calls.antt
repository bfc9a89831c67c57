-- ===== src/Auth/Invites/Calls.antt =====
-- The calls of Auth/Invites, each in its transaction, one after another in any order. The index on addresses is one of
-- the database, so `lower` is the same for all of them.
use faktureringssystemet.Prelude.{ℕ, Option, List, [], ◌∷◌}
use faktureringssystemet.Shared.Text.{Text}
use faktureringssystemet.Shared.Errors.{Result}
use faktureringssystemet.Shared.Tx.{begin}
use faktureringssystemet.Auth.Tokens.{AuthDb, TokenCalls}
use faktureringssystemet.Auth.Invites.{
  Addresses, RegisterInput, CreateCustomerInviteInput, InternalCustomer, register,
  create_customer_invite, accept_customer_invite,
}

pub data InviteCall : Type 0 where
  sign_up : TokenCalls → RegisterInput → InviteCall
  offer :
      TokenCalls
      → (ℕ → ℕ → Result (Option InternalCustomer))
      → ℕ
      → ℕ
      → CreateCustomerInviteInput
      → InviteCall
  accept : TokenCalls → Text → Text → InviteCall

unfoldable pub handle : Addresses → InviteCall → AuthDb → AuthDb
handle a (sign_up c input) db = register c a input db
handle a (offer c find_customer tenant admin input) db =
    (begin (create_customer_invite c a find_customer tenant admin input) db).1
handle a (accept c token password) db = (begin (accept_customer_invite c token password) db).1

unfoldable pub handle_all : Addresses → List InviteCall → AuthDb → AuthDb
handle_all a [] db = db
handle_all a (call ∷ calls) db = handle_all a calls (handle a call db)
