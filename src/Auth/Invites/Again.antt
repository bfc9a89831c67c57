-- ===== src/Auth/Invites/Again.antt =====
-- A new link for a customer who was invited before.
use faktureringssystemet.Prelude.{
  ℕ, ◌+◌, ◌*◌, ◌≡◌, ◌∙◌, refl, sym, ap, inl, inr, Bool, true, false, not, ◌&&◌, some, arith, ◌==◌,
  find_first, update_where, count_where, is_some, Bool-cases, ltb,
}
use faktureringssystemet.Prelude.Rows.{count_where-update_where, count_where_strict}
use faktureringssystemet.Shared.Text.{Text}
use faktureringssystemet.Shared.Errors.{ok}
use faktureringssystemet.Auth.Tokens.{
  TokenType, UserRow, AuthDb, TokenCalls, is_unused_of, revoked, insert_token, write_audit_log,
}
use faktureringssystemet.Auth.Sessions.Laws.{unused-revoked}
use faktureringssystemet.Auth.Invites.{Addresses, has_email, is_portal_of, invite}
use faktureringssystemet.Auth.Invites.Sound.{
  has_user_id, is_verified, open_links, IsSound, open_links-insert_token, address_once, open_fewer,
}

-- The login of a customer who was invited before, with a new address and a new link.
abbrev reinvited : TokenCalls → ℕ → ℕ → Text → UserRow → AuthDb → AuthDb
reinvited c tenant admin email user db = write_audit_log tenant admin "customer.invite_resent" (
    insert_token tenant user.id TokenType.customer_invite (c.hash_token c.generate_token)
      (c.now + c.customer_invite_ttl_seconds * 1000)
      (record (revoked c.now user.id TokenType.customer_invite db) {
        users = update_where (has_user_id user.id) (λ u. record u { email = some email }) db.users;
      }))

reinvite_effect :
    (c : TokenCalls) (a : Addresses) (tenant admin customer : ℕ) (email : Text) (user : UserRow)
    (db db' : AuthDb)
    → invite c a tenant admin customer email (some user) db ≡ ok (tt, db')
    → (is_some user.email_verified_at ≡ false)
      × (count_where (λ u. has_email a email u && not (has_user_id user.id u)) db.users ≡ 0)
      × (db' ≡ reinvited c tenant admin email user db)
reinvite_effect c a tenant admin customer email user db db' h =
    (ground arith, ground arith, ground arith)

-- A login whose address is not verified has no verified row under its id.
unverified :
    (a : Addresses) (db : AuthDb) (q : UserRow → Bool) (user : UserRow)
    → IsSound a db
    → find_first q db.users ≡ some user
    → is_some user.email_verified_at ≡ false
    → (count_where (is_verified user.id) db.users ≡ 0) × (ltb user.id db.next_user_id ≡ true)
unverified a db q user s found fresh =
    let k = s.ids user.id in
    let self : has_user_id user.id user ≡ true = ground arith in
    let none_ : is_verified user.id user ≡ false = rw fresh (ground arith) in
    let strict =
      count_where_strict q (has_user_id user.id) (is_verified user.id) db.users {r = user}
        (λ u h. ground arith) found self none_ in
    (ground (arith, k, strict), ground (arith, k, strict))

pub reinvite-IsSound :
    (c : TokenCalls) (a : Addresses) (tenant admin customer : ℕ) (email : Text) (user : UserRow)
    (db db' : AuthDb)
    → find_first (is_portal_of customer) db.users ≡ some user
    → invite c a tenant admin customer email (some user) db ≡ ok (tt, db')
    → IsSound a db
    → IsSound a db'
reinvite-IsSound c a tenant admin customer email user db db' found h s =
    let (fresh, free, e) = reinvite_effect c a tenant admin customer email user db db' h in
    let (unproven, below) = unverified a db (is_portal_of customer) user s found fresh in
    let hit = has_user_id user.id in
    let own = s.ids user.id in
    rw e (record {
      ids = λ i.
          let c =
            count_where-update_where (has_user_id i) hit (λ u. record u { email = some email })
              db.users (λ u. refl) in
          let k = s.ids i in ground (arith, c, k);
      links = λ i.
          let l =
            open_links-insert_token i tenant user.id TokenType.customer_invite
              (c.hash_token c.generate_token) (c.now + c.customer_invite_ttl_seconds * 1000)
              (revoked c.now user.id TokenType.customer_invite db) in
          let v =
            count_where-update_where (is_verified i) hit (λ u. record u { email = some email })
              db.users (λ u. refl) in
          elim (Bool-cases (user.id == i)) [
            | inl own ↦
                let same : user.id ≡ i = ground arith in
                let ended = unused-revoked c.now user.id TokenType.customer_invite db in
                let ended' : open_links i (revoked c.now user.id TokenType.customer_invite db) ≡ 0 =
                  ap (λ k. open_links k (revoked c.now user.id TokenType.customer_invite db))
                    (sym same)
                  ∙ ended in
                let no' : count_where (is_verified i) db.users ≡ 0 =
                  ap (λ k. count_where (is_verified k) db.users) (sym same) ∙ unproven in
                let below' : ltb i db.next_user_id ≡ true = rw (← same) below in
                ground (arith, l, v, ended', no', below')
            | inr other ↦
                let k = s.links i in
                let fewer =
                  open_fewer i c.now (is_unused_of user.id TokenType.customer_invite)
                    db.user_tokens in
                ground (arith, l, v, k, fewer)
          ];
      portals = λ i.
          let c =
            count_where-update_where (is_portal_of i) hit (λ u. record u { email = some email })
              db.users (λ u. refl) in
          let k = s.portals i in ground (arith, c, k);
      addresses =
          λ x. address_once a x email db.users hit free (ground (arith, own)) (s.addresses x);
    })
