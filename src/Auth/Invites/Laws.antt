-- ===== src/Auth/Invites/Laws.antt =====
-- What registering, inviting and accepting keep of the logins.
use faktureringssystemet.Prelude.{
  ℕ, ◌≡◌, inl, inr, Option, List, [], ◌∷◌, arith, find_first, Option-cases,
}
use faktureringssystemet.Shared.Errors.{Result, ok, Result-cases}
use faktureringssystemet.Shared.Tx.{Tx, begin}
use faktureringssystemet.Auth.Tokens.{AuthDb, TokenCalls}
use faktureringssystemet.Auth.Invites.{
  Addresses, CreateCustomerInviteInput, InternalCustomer, is_portal_of, register_in_tx, register,
  create_customer_invite, accept_customer_invite,
}
use faktureringssystemet.Auth.Invites.Calls.{InviteCall, sign_up, offer, accept, handle, handle_all}
use faktureringssystemet.Auth.Invites.Sound.{IsSound}
use faktureringssystemet.Auth.Invites.Added.{register-IsSound, invite-IsSound}
use faktureringssystemet.Auth.Invites.Again.{reinvite-IsSound}
use faktureringssystemet.Auth.Invites.Accepted.{accept-IsSound}

offer-IsSound :
    (c : TokenCalls) (a : Addresses) (find_customer : ℕ → ℕ → Result (Option InternalCustomer))
    (tenant admin : ℕ) (input : CreateCustomerInviteInput) (db db' : AuthDb)
    → create_customer_invite c a find_customer tenant admin input db ≡ ok (tt, db')
    → IsSound a db
    → IsSound a db'
unfolding create_customer_invite
offer-IsSound c a find_customer tenant admin input db db' h s =
    elim (Result-cases (find_customer tenant input.customer_id)) [
      | inr (x, bad) ↦ absurd (ground (arith, bad, h))
      | inl (answer, e) ↦ elim (Option-cases answer) [
        | inl missing ↦ absurd (ground (arith, e, missing, h))
        | inr (known, there) ↦
            elim (Option-cases (find_first (is_portal_of input.customer_id) db.users)) [
              | inl new ↦
                  invite-IsSound c a tenant admin input.customer_id (a.norm input.email) db db'
                    (ground (arith, e, there, new, h)) s
              | inr (user, met) ↦
                  reinvite-IsSound c a tenant admin input.customer_id (a.norm input.email) user db
                    db' met (ground (arith, e, there, met, h)) s
            ]
      ]
    ]

begin-IsSound :
    (a : Addresses) (m : Tx AuthDb (Unit {0})) (db : AuthDb)
    → ((db' : AuthDb) → m db ≡ ok (tt, db') → IsSound a db')
    → IsSound a db
    → IsSound a (begin m db).1
begin-IsSound a m db h s = elim (Result-cases (m db)) [
  | inl ((u, db'), e) ↦ rw e (h db' e)
  | inr (x, bad) ↦ rw bad s
]

handle-IsSound :
    (a : Addresses) (call : InviteCall) (db : AuthDb) → IsSound a db → IsSound a (handle a call db)
unfolding handle register
handle-IsSound a (sign_up c input) db s =
    begin-IsSound a (register_in_tx c a input) db (λ db' e. register-IsSound c a input db db' e s) s
handle-IsSound a (offer c find_customer tenant admin input) db s =
    begin-IsSound a (create_customer_invite c a find_customer tenant admin input) db
      (λ db' e. offer-IsSound c a find_customer tenant admin input db db' e s) s
handle-IsSound a (accept c token password) db s =
    begin-IsSound a (accept_customer_invite c token password) db
      (λ db' e. accept-IsSound c a token password db db' e s) s

-- After any registrations, invitations and acceptances, one after another and also ones that fail, on logins that were
-- sound, they are sound: every user has an id of its own below the next one, and at most one open invitation, and none
-- once its address is verified; a customer has at most one login, and an address too.
pub logins-IsSound :
    (a : Addresses) (calls : List InviteCall) (db : AuthDb)
    → IsSound a db
    → IsSound a (handle_all a calls db)
unfolding handle_all
logins-IsSound a [] db s = s
logins-IsSound a (call ∷ calls) db s =
    logins-IsSound a calls (handle a call db) (handle-IsSound a call db s)
