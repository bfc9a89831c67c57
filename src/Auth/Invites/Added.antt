-- ===== src/Auth/Invites/Added.antt =====
-- New logins: those who register, and customers who were not invited before.
use faktureringssystemet.Prelude.{
  ℕ, ◌+◌, ◌*◌, ◌≡◌, refl, none, some, List, [], ◌∷◌, arith, count_where,
}
use faktureringssystemet.Shared.Text.{Text}
use faktureringssystemet.Shared.Errors.{ok}
use faktureringssystemet.Auth.Tokens.{
  TokenType, UserRole, UserRow, AuthDb, TokenCalls, insert_token, write_audit_log,
}
use faktureringssystemet.Auth.Invites.{
  Addresses, RegisterInput, has_email, is_portal_of, has_customer, user_row, with_user, insert_user,
  with_tenant, write_tenant_created, register_in_tx, invite,
}
use faktureringssystemet.Auth.Invites.Sound.{IsSound, open_links-insert_token, added-IsSound}

no_customer : (xs : List UserRow) → count_where (has_customer none) xs ≡ 0
no_customer [] = refl
no_customer (u ∷ xs) = omega (arith, no_customer xs)

-- The registered company's administrator, with the link that verifies the address.
abbrev registered : TokenCalls → Addresses → RegisterInput → AuthDb → AuthDb
registered c a input db =
    let tenant = db.next_tenant_id in
    let user = db.next_user_id in
    write_audit_log tenant user "tenant.registered" (
      write_tenant_created tenant user (
        insert_token tenant user TokenType.email_verification (c.hash_token c.generate_token)
          (c.now + c.email_verification_ttl_seconds * 1000)
          (with_user
            (user_row user tenant UserRole.admin (a.norm input.email)
              (c.hash_password input.password) none)
            (with_tenant input db))))

register_effect :
    (c : TokenCalls) (a : Addresses) (input : RegisterInput) (db db' : AuthDb)
    → register_in_tx c a input db ≡ ok (tt, db')
    → (count_where (has_email a (a.norm input.email)) db.users ≡ 0)
      × (db' ≡ registered c a input db)
unfolding register_in_tx insert_user
register_effect c a input db db' h = (ground arith, ground arith)

pub register-IsSound :
    (c : TokenCalls) (a : Addresses) (input : RegisterInput) (db db' : AuthDb)
    → register_in_tx c a input db ≡ ok (tt, db')
    → IsSound a db
    → IsSound a db'
register-IsSound c a input db db' h s =
    let (free, e) = register_effect c a input db db' h in
    rw e (
      added-IsSound a db.next_tenant_id UserRole.admin (a.norm input.email)
        (c.hash_password input.password) none db (registered c a input db) s free
        (no_customer db.users) refl refl
        (λ i.
          let l =
            open_links-insert_token i db.next_tenant_id db.next_user_id TokenType.email_verification
              (c.hash_token c.generate_token) (c.now + c.email_verification_ttl_seconds * 1000)
              db in
          ground (arith, l)))

-- The login of a customer who was not invited before, with its link.
abbrev invited : TokenCalls → Addresses → ℕ → ℕ → ℕ → Text → AuthDb → AuthDb
invited c a tenant admin customer email db =
    let user = db.next_user_id in
    write_audit_log tenant admin "customer.invited" (
      insert_token tenant user TokenType.customer_invite (c.hash_token c.generate_token)
        (c.now + c.customer_invite_ttl_seconds * 1000)
        (with_user (user_row user tenant UserRole.customer email a.unknown_password (some customer))
          db))

invite_effect :
    (c : TokenCalls) (a : Addresses) (tenant admin customer : ℕ) (email : Text) (db db' : AuthDb)
    → invite c a tenant admin customer email none db ≡ ok (tt, db')
    → (count_where (has_email a email) db.users ≡ 0)
      × (count_where (is_portal_of customer) db.users ≡ 0)
      × (db' ≡ invited c a tenant admin customer email db)
unfolding insert_user
invite_effect c a tenant admin customer email db db' h = (ground arith, ground arith, ground arith)

pub invite-IsSound :
    (c : TokenCalls) (a : Addresses) (tenant admin customer : ℕ) (email : Text) (db db' : AuthDb)
    → invite c a tenant admin customer email none db ≡ ok (tt, db')
    → IsSound a db
    → IsSound a db'
invite-IsSound c a tenant admin customer email db db' h s =
    let (free, single, e) = invite_effect c a tenant admin customer email db db' h in
    rw e (
      added-IsSound a tenant UserRole.customer email a.unknown_password (some customer) db
        (invited c a tenant admin customer email db) s free single refl refl
        (λ i.
          let l =
            open_links-insert_token i tenant db.next_user_id TokenType.customer_invite
              (c.hash_token c.generate_token) (c.now + c.customer_invite_ttl_seconds * 1000) db in
          ground (arith, l)))
