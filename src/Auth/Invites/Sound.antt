-- ===== src/Auth/Invites/Sound.antt =====
-- The state of logins that Auth/Invites keeps, and what a new login does to it.
use faktureringssystemet.Prelude.{
  ℕ, suc, ◌+◌, ◌≤◌, ◌≡◌, ◌∙◌, refl, sym, ap, inl, inr, Bool, true, not, ◌&&◌, Option, none, some,
  List, [], ◌∷◌, ◌++◌, arith, ◌==◌, update_where, count_where, count_where-append, is_some,
  Bool-cases, Option-cases, ltb,
}
use faktureringssystemet.Prelude.Rows.{
  count_where-update_gone, count_where-update_most, count_where_mono, as_count,
}
use faktureringssystemet.Shared.Text.{Text, text_eq, text_eq→≡}
use faktureringssystemet.Shared.Errors.{ok}
use faktureringssystemet.Auth.Tokens.{
  TokenType, UserRole, UserTokenRow, UserRow, AuthDb, is_unused_of, as_used, type_eq, insert_token,
}
use faktureringssystemet.Auth.Sessions.Laws.{unused}
use faktureringssystemet.Auth.Invites.{
  Addresses, has_email, is_portal_of, has_customer, user_row, with_user, insert_user,
}

abbrev pub has_user_id : ℕ → UserRow → Bool
has_user_id i u = u.id == i

abbrev pub is_verified : ℕ → UserRow → Bool
is_verified i u = u.id == i && is_some u.email_verified_at

-- The links with which a user may still accept an invitation.
abbrev pub open_links : ℕ → AuthDb → ℕ
open_links i db = unused i TokenType.customer_invite db

-- Every user has an id of its own below the next one, and at most one open link, and none once its address is
-- verified; a customer has at most one login, and an address too.
pub record IsSound (a : Addresses) (db : AuthDb) : Type 0 where
  pub ids : (i : ℕ) → count_where (has_user_id i) db.users ≤ as_count (ltb i db.next_user_id)
  pub links :
      (i : ℕ)
      → open_links i db + count_where (is_verified i) db.users ≤ as_count (ltb i db.next_user_id)
  pub portals : (i : ℕ) → count_where (is_portal_of i) db.users ≤ 1
  pub addresses : (e : Text) → count_where (has_email a e) db.users ≤ 1

insert_effect :
    (a : Addresses) (tenant : ℕ) (role : UserRole) (email password : Text) (customer : Option ℕ)
    (db db' : AuthDb) (id : ℕ)
    → insert_user a tenant role email password customer db ≡ ok (id, db')
    → (count_where (has_email a email) db.users ≡ 0)
      × (count_where (has_customer customer) db.users ≡ 0)
      × (id ≡ db.next_user_id)
      × (db' ≡ with_user (user_row db.next_user_id tenant role email password customer) db)
unfolding insert_user
insert_effect a tenant role email password customer db db' id h =
    (ground arith, ground arith, ground arith, ground arith)

pub open_links-insert_token :
    (i tenant user : ℕ) (type : TokenType) (hash : Text) (expires : ℕ) (db : AuthDb)
    → open_links i (insert_token tenant user type hash expires db)
      ≡ open_links i db + as_count (user == i && type_eq type TokenType.customer_invite)
open_links-insert_token i tenant user type hash expires db =
    let c = count_where-append (is_unused_of i TokenType.customer_invite) db.user_tokens (
      record {
        id = db.next_token_id;
        tenant_id = tenant;
        user_id = user;
        token_type = type;
        token_hash = hash;
        expires_at = expires;
        used_at = none;
      }
      ∷ []) in
    ground (arith, c)

-- Two addresses that mean the same for the index are the same in every count of it.
same_address :
    (a : Addresses) (e e' : Text) (u : UserRow)
    → text_eq (a.lower e) (a.lower e') ≡ true
    → has_email a e u ≡ has_email a e' u
same_address a e e' u h =
    let same = text_eq→≡ (a.lower e) (a.lower e') h in
    elim (Option-cases u.email) [
      | inl missing ↦ rw missing refl
      | inr (mine, has) ↦ rw (has, same) refl
    ]

-- A count of an address where a row gets another, which no other row has.
pub address_once :
    (a : Addresses) (e email : Text) (xs : List UserRow) (p : UserRow → Bool)
    → count_where (λ u. has_email a email u && not (p u)) xs ≡ 0
    → count_where p xs ≤ 1
    → count_where (has_email a e) xs ≤ 1
    → count_where (has_email a e) (update_where p (λ u. record u { email = some email }) xs) ≤ 1
address_once a e email xs p free one_row one =
    elim (Bool-cases (text_eq (a.lower email) (a.lower e))) [
      | inl same ↦
          let most =
            count_where-update_most (has_email a e) p (λ u. record u { email = some email }) xs in
          let others =
            count_where_mono (λ u. has_email a e u && not (p u))
              (λ u. has_email a email u && not (p u)) xs
              (λ u h. let k = same_address a email e u same in ground (arith, h, k)) in
          omega (arith, most, others, free, one_row)
      | inr other ↦
          let gone =
            count_where-update_gone (has_email a e) p (λ u. record u { email = some email }) xs
              (λ u h. other) in
          let fewer =
            count_where_mono (λ u. has_email a e u && not (p u)) (has_email a e) xs
              (λ u h. ground arith) in
          omega (arith, gone, fewer, one)
    ]

portal_added :
    (i tenant : ℕ) (role : UserRole) (email password : Text) (customer : Option ℕ) (db : AuthDb)
    → count_where (is_portal_of i) db.users ≤ 1
    → count_where (has_customer customer) db.users ≡ 0
    → count_where (is_portal_of i) db.users
        + count_where
            (is_portal_of i)
            (user_row db.next_user_id tenant role email password customer ∷ [])
      ≤ 1
portal_added i tenant role email password none db one free = ground (arith, one)
portal_added i tenant role email password (some j) db one free = elim (Bool-cases (j == i)) [
  | inl own ↦
      let same : j ≡ i = ground arith in
      let none_ : count_where (is_portal_of i) db.users ≡ 0 =
        ap (λ k. count_where (is_portal_of k) db.users) (sym same) ∙ free in
      rw own (omega (arith, none_))
  | inr other ↦ rw other (omega (arith, one))
]

address_added :
    (a : Addresses) (e : Text) (tenant : ℕ) (role : UserRole) (email password : Text)
    (customer : Option ℕ) (db : AuthDb)
    → count_where (has_email a e) db.users ≤ 1
    → count_where (has_email a email) db.users ≡ 0
    → count_where (has_email a e) db.users
        + count_where
            (has_email a e)
            (user_row db.next_user_id tenant role email password customer ∷ [])
      ≤ 1
address_added a e tenant role email password customer db one free =
    elim (Bool-cases (text_eq (a.lower email) (a.lower e))) [
      | inl same ↦
          let none_ =
            count_where_mono (has_email a e) (has_email a email) db.users
              (λ u h. let k = same_address a email e u same in ground (arith, h, k)) in
          rw same (omega (arith, none_, free))
      | inr other ↦ rw other (omega (arith, one))
    ]

pub added-IsSound :
    (a : Addresses) (tenant : ℕ) (role : UserRole) (email password : Text) (customer : Option ℕ)
    (db db' : AuthDb)
    → IsSound a db
    → count_where (has_email a email) db.users ≡ 0
    → count_where (has_customer customer) db.users ≡ 0
    → db'.users ≡ db.users ++ user_row db.next_user_id tenant role email password customer ∷ []
    → db'.next_user_id ≡ suc db.next_user_id
    → ((i : ℕ) → open_links i db' ≤ open_links i db + as_count (db.next_user_id == i))
    → IsSound a db'
added-IsSound a tenant role email password customer db db' s new_email new_customer users next
      links =
    let row = user_row db.next_user_id tenant role email password customer in
    record {
      ids = λ i.
          let c = count_where-append (has_user_id i) db.users (row ∷ []) in
          let k = s.ids i in rw (users, next, c) (ground (arith, k));
      links = λ i.
          let c = count_where-append (is_verified i) db.users (row ∷ []) in
          let k = s.links i in let l = links i in rw (users, next, c) (ground (arith, k, l));
      portals = λ i.
          let c = count_where-append (is_portal_of i) db.users (row ∷ []) in
          let k = s.portals i in
          rw (users, c) (portal_added i tenant role email password customer db k new_customer);
      addresses = λ e.
          let c = count_where-append (has_email a e) db.users (row ∷ []) in
          let k = s.addresses e in
          rw (users, c) (address_added a e tenant role email password customer db k new_email);
    }

pub open_fewer :
    (i now : ℕ) (p : UserTokenRow → Bool) (xs : List UserTokenRow)
    → count_where (is_unused_of i TokenType.customer_invite) (update_where p (as_used now) xs)
      ≤ count_where (is_unused_of i TokenType.customer_invite) xs
open_fewer i now p xs =
    let q = is_unused_of i TokenType.customer_invite in
    let gone = count_where-update_gone q p (as_used now) xs (λ r h. ground arith) in
    let fewer = count_where_mono (λ r. q r && not (p r)) q xs (λ r h. ground arith) in
    omega (arith, gone, fewer)
