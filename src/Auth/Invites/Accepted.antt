-- ===== src/Auth/Invites/Accepted.antt =====
-- An invitation that is accepted.
use faktureringssystemet.Prelude.{
  ℕ, ◌+◌, ◌≤◌, ◌<◌, ◌≡◌, ◌∙◌, refl, inl, inr, Bool, true, false, not, ◌&&◌, some, arith, ◌==◌,
  update_where, count_where, is_some, Bool-cases, Option-cases, ltb, find_first_holds,
}
use faktureringssystemet.Prelude.Rows.{
  count_where-update_where, count_where-update_hit, count_where-update_gone, count_where_mono,
  count_where_strict, as_count,
}
use faktureringssystemet.Shared.Text.{Text}
use faktureringssystemet.Shared.Errors.{ok, err, Error}
use faktureringssystemet.Auth.Tokens.{
  TokenType, UserTokenRow, UserRow, AuthDb, TokenCalls, find_token, is_token, is_unused_id,
  is_unused_of, as_used, write_audit_log,
}
use faktureringssystemet.Auth.Sessions.{update_password, set_email_verified}
use faktureringssystemet.Auth.Invites.{Addresses, has_email, is_portal_of, accept_customer_invite}
use faktureringssystemet.Auth.Invites.Sound.{
  has_user_id, is_verified, open_links, IsSound, open_fewer,
}

-- An accepted link, with the password that was chosen.
abbrev accepted : TokenCalls → Text → UserTokenRow → AuthDb → AuthDb
accepted c password row db = write_audit_log row.tenant_id row.user_id "customer.invite_accepted" (
    set_email_verified c.now row.user_id (
      update_password row.user_id (c.hash_password password) (record db {
        user_tokens = update_where (is_unused_id row.id) (as_used c.now) db.user_tokens;
      })))

accept_effect :
    (c : TokenCalls) (token password : Text) (db db' : AuthDb)
    → accept_customer_invite c token password db ≡ ok (tt, db')
    → (row : UserTokenRow) × (find_token (c.hash_token token) TokenType.customer_invite db
        ≡ some row)
      × (is_some row.used_at ≡ false)
      × (db' ≡ accepted c password row db)
unfolding accept_customer_invite
accept_effect c token password db db' h =
    elim (Option-cases (find_token (c.hash_token token) TokenType.customer_invite db)) [
      | inl missing ↦
          let e : accept_customer_invite c token password db ≡ err Error.bad_request =
            rw missing refl in
          absurd (ground (arith, e, h))
      | inr (row, found) ↦ (row, found, ground (arith, found, h), ground (arith, found, h))
    ]

-- A link that is accepted was open, and is not any more.
accepted_closed :
    (c : TokenCalls) (hash : Text) (row : UserTokenRow) (db : AuthDb)
    → find_token hash TokenType.customer_invite db ≡ some row
    → is_some row.used_at ≡ false
    → count_where
        (is_unused_of row.user_id TokenType.customer_invite)
        (update_where (is_unused_id row.id) (as_used c.now) db.user_tokens)
      < open_links row.user_id db
accepted_closed c hash row db found fresh =
    let q = is_unused_of row.user_id TokenType.customer_invite in
    let p = is_unused_id row.id in
    let kind =
      find_first_holds (is_token hash TokenType.customer_invite) db.user_tokens {a = row} found in
    let gone = count_where-update_gone q p (as_used c.now) db.user_tokens (λ r h. ground arith) in
    let own : q row ≡ true = ground (arith, kind, fresh) in
    let hit : p row ≡ true = ground (arith, fresh) in
    let strict =
      count_where_strict (is_token hash TokenType.customer_invite) q (λ r. q r && not (p r))
        db.user_tokens {r = row} (λ r h. ground arith) found own (ground (arith, hit)) in
    omega (arith, gone, strict)

accepted_links :
    (c : TokenCalls) (a : Addresses) (token password : Text) (row : UserTokenRow) (db : AuthDb)
    → find_token (c.hash_token token) TokenType.customer_invite db ≡ some row
    → is_some row.used_at ≡ false
    → IsSound a db
    → (i : ℕ)
    → open_links i (accepted c password row db)
        + count_where (is_verified i) (accepted c password row db).users
      ≤ as_count (ltb i db.next_user_id)
accepted_links c a token password row db found fresh s i =
    let hit = has_user_id row.user_id in
    let renew = λ (u : UserRow). record u { password_hash = some (c.hash_password password) } in
    let verify = λ (u : UserRow). record u { email_verified_at = some c.now } in
    let k = s.links i in
    elim (Bool-cases (row.user_id == i)) [
      | inl own ↦
          let same : row.user_id ≡ i = ground arith in
          let n = s.ids i in
          let closed = accepted_closed c (c.hash_token token) row db found fresh in
          let closed' : open_links i (accepted c password row db) < open_links i db =
            rw (← same) closed in
          let ids =
            count_where-update_where (has_user_id i) hit verify (update_where hit renew db.users)
              (λ u. refl)
            ∙ count_where-update_where (has_user_id i) hit renew db.users (λ u. refl) in
          let fewer =
            count_where_mono (is_verified i) (has_user_id i) (accepted c password row db).users
              (λ u h. ground arith) in
          ground (arith, k, n, closed', ids, fewer)
      | inr other ↦
          let v =
            count_where-update_hit (is_verified i) hit verify (update_where hit renew db.users)
              (λ u h. ground (arith, other, h))
            ∙ count_where-update_where (is_verified i) hit renew db.users (λ u. refl) in
          let fewer = open_fewer i c.now (is_unused_id row.id) db.user_tokens in
          omega (arith, k, v, fewer)
    ]

pub accept-IsSound :
    (c : TokenCalls) (a : Addresses) (token password : Text) (db db' : AuthDb)
    → accept_customer_invite c token password db ≡ ok (tt, db')
    → IsSound a db
    → IsSound a db'
accept-IsSound c a token password db db' h s =
    let (row, found, fresh, e) = accept_effect c token password db db' h in
    let hit = has_user_id row.user_id in
    let chosen =
      update_where hit (λ u. record u { password_hash = some (c.hash_password password) })
        db.users in
    let same_count : (q : UserRow → Bool)
        → ((u : UserRow)
            → (q (record u { password_hash = some (c.hash_password password) }) ≡ q u)
              × (q (record u { email_verified_at = some c.now }) ≡ q u))
        → count_where q (accepted c password row db).users ≡ count_where q db.users =
      λ q k.
        count_where-update_where q hit (λ u. record u { email_verified_at = some c.now }) chosen
          (λ u. (k u).1)
        ∙ count_where-update_where q hit
            (λ u. record u { password_hash = some (c.hash_password password) }) db.users
            (λ u. (k u).0) in
    rw e (record {
      ids = λ i.
          let n = same_count (has_user_id i) (λ u. (refl, refl)) in
          let k = s.ids i in ground (arith, n, k);
      links = λ i. accepted_links c a token password row db found fresh s i;
      portals = λ i.
          let n = same_count (is_portal_of i) (λ u. (refl, refl)) in
          let k = s.portals i in ground (arith, n, k);
      addresses = λ x.
          let n = same_count (has_email a x) (λ u. (refl, refl)) in
          let k = s.addresses x in ground (arith, n, k);
    })
