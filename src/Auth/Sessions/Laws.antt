-- ===== src/Auth/Sessions/Laws.antt =====
-- What becomes of the sessions of services/auth/src/auth/services.ts.
use faktureringssystemet.Prelude.{
  ℕ, ◌+◌, ◌*◌, ◌≡◌, ◌⊎◌, refl, sym, ap, ◌∙◌, inl, inr, Bool, true, false, not, ◌&&◌, ◌||◌, Option,
  none, some, List, [], ◌∷◌, arith, ltb, ◌==◌, is_some, find_first, update_where, count_where,
  find_first_holds, find_first-append, Bool-cases, Option-cases,
}
use faktureringssystemet.Prelude.Rows.{find_updated, count_found}
use faktureringssystemet.Shared.Text.{Text}
use faktureringssystemet.Shared.Errors.{Error, ok, err}
use faktureringssystemet.Auth.Tokens.{
  TokenType, UserTokenRow, UserRow, AuthDb, TokenCalls, find_token, is_token, is_unused_id,
  is_unused_of, as_used, revoked, insert_token, issue_token_row,
}
use faktureringssystemet.Auth.Sessions.{
  TokenPair, refresh, rotate, find_user_by_id, is_customer, is_tenant_active, customer_of,
  session_of,
}

-- How many tokens of a kind a user could still use.
abbrev pub unused : ℕ → TokenType → AuthDb → ℕ
unused user type db = count_where (is_unused_of user type) db.user_tokens

-- Rows that an update takes out of its own test are all gone from it.
count_cleared :
    {A : Type 0} (p : A → Bool) (f : A → A) (xs : List A)
    → ((x : A) → p (f x) ≡ false)
    → count_where p (update_where p f xs) ≡ 0
count_cleared p f [] h = refl
count_cleared p f (x ∷ xs) h = ground (arith, h x, count_cleared p f xs h)

used_is_not_unused :
    (now user : ℕ) (type : TokenType) (r : UserTokenRow)
    → is_unused_of user type (as_used now r) ≡ false
used_is_not_unused now user type r = ground arith

pub unused-revoked :
    (now user : ℕ) (type : TokenType) (db : AuthDb)
    → unused user type (revoked now user type db) ≡ 0
unused-revoked now user type db =
    count_cleared (is_unused_of user type) (as_used now) db.user_tokens
      (used_is_not_unused now user type)

-- A used token ends the sessions.
reuse :
    (c : TokenCalls) (meanwhile : AuthDb → AuthDb) (token : Text) (db : AuthDb) (row : UserTokenRow)
    → find_token (c.hash_token token) TokenType.refresh db ≡ some row
    → is_some row.used_at ≡ true
    → refresh c meanwhile token db
      ≡ (err Error.unauthorized, revoked c.now row.user_id TokenType.refresh db)
unfolding refresh
reuse c meanwhile token db row found used = rw (found, used) refl

-- The session that a token stands for, which is only read.
session_of-cases :
    (now : ℕ) (row : UserTokenRow) (db : AuthDb)
    → ((u : UserRow) × (session_of now row db ≡ ok ((u, customer_of u row.tenant_id db), db))
        × (u.id ≡ row.user_id))
      ⊎ ((e : Error) × (session_of now row db ≡ err e))
session_of-cases now row db = elim (Bool-cases (ltb row.expires_at now)) [
  | inl late ↦ inr (Error.unauthorized, rw late refl)
  | inr live ↦ elim (Option-cases (find_user_by_id row.user_id db)) [
    | inl missing ↦ inr (Error.unauthorized, rw (live, missing) refl)
    | inr (u, found) ↦ elim (Bool-cases (is_tenant_active row.tenant_id db)) [
      | inr closed ↦ inr (Error.forbidden, rw (live, found, closed) refl)
      | inl active ↦
          elim (Bool-cases (is_customer u.role && not (is_some (customer_of u row.tenant_id db)))) [
            | inl lost ↦ inr (Error.forbidden, rw (live, found, active, lost) refl)
            | inr kept ↦
                let own =
                  find_first_holds (λ (r : UserRow). r.id == row.user_id) db.users {a = u} found in
                inl (u, rw (live, found, active, kept) refl, ground arith)
          ]
    ]
  ]
]

-- The row of a token, after an update that marks rows as used.
pub marked_row :
    (now : ℕ) (hash : Text) (type : TokenType) (p : UserTokenRow → Bool) (xs : List UserTokenRow)
    (row : UserTokenRow)
    → find_first (is_token hash type) xs ≡ some row
    → (is_some row.used_at || p row) ≡ true
    → (row' : UserTokenRow) × (find_first (is_token hash type) (update_where p (as_used now) xs)
        ≡ some row')
      × (is_some row'.used_at ≡ true)
      × (row'.user_id ≡ row.user_id)
marked_row now hash type p xs row found h =
    let at = find_updated (is_token hash type) p (as_used now) xs {r = row} (λ r. refl) found in
    elim (Bool-cases (p row)) [
      | inl t ↦ (as_used now row, at ∙ rw t refl, refl, refl)
      | inr f ↦ (row, at ∙ rw f refl, ground arith, refl)
    ]

-- The database after a rotation of an unused token.
rotated :
    (c : TokenCalls) (row : UserTokenRow) (user : UserRow) (q : UserTokenRow → Bool) (db : AuthDb)
    → find_first q db.user_tokens ≡ some row
    → is_some row.used_at ≡ false
    → rotate c row user db
      ≡ issue_token_row c user.id row.tenant_id TokenType.refresh c.refresh_ttl_seconds (record db {
        user_tokens = update_where (is_unused_id row.id) (as_used c.now) db.user_tokens;
      })
unfolding rotate
rotated c row user q db found fresh =
    let here : is_unused_id row.id row ≡ true = ground arith in
    let one = count_found q (is_unused_id row.id) db.user_tokens {r = row} found here in
    let some_marked : (count_where (is_unused_id row.id) db.user_tokens == 0) ≡ false =
      ground arith in
    rw some_marked refl

-- The database after a rotation, and the answer to it.
abbrev after_rotation : TokenCalls → UserTokenRow → UserRow → AuthDb → AuthDb
after_rotation c row user db =
    insert_token row.tenant_id user.id TokenType.refresh (c.hash_token c.generate_token)
      (c.now + c.refresh_ttl_seconds * 1000)
      (record db {
        user_tokens = update_where (is_unused_id row.id) (as_used c.now) db.user_tokens;
      })

abbrev new_token : TokenCalls → UserTokenRow → UserRow → AuthDb → UserTokenRow
new_token c row user db = record {
  id = db.next_token_id;
  tenant_id = row.tenant_id;
  user_id = user.id;
  token_type = TokenType.refresh;
  token_hash = c.hash_token c.generate_token;
  expires_at = c.now + c.refresh_ttl_seconds * 1000;
  used_at = none;
}

abbrev answer : TokenCalls → UserTokenRow → UserRow → Option ℕ → TokenPair
answer c row user customer = record {
  user_id = user.id;
  tenant_id = row.tenant_id;
  role = user.role;
  customer_id = customer;
  refresh_token = c.generate_token;
}

-- A refresh that succeeds has used up an unused token of the user's.
refresh-inv :
    (c : TokenCalls) (meanwhile : AuthDb → AuthDb) (token : Text) (db db' : AuthDb)
    (pair : TokenPair)
    → ((d : AuthDb)
        → find_token (c.hash_token token) TokenType.refresh (meanwhile d)
          ≡ find_token (c.hash_token token) TokenType.refresh d)
    → refresh c meanwhile token db ≡ (ok pair, db')
    → (row : UserTokenRow) × (u : UserRow) × (find_token (c.hash_token token) TokenType.refresh db
        ≡ some row)
      × (is_some row.used_at ≡ false)
      × (u.id ≡ row.user_id)
      × (refresh c meanwhile token db ≡ (
        ok (answer c row u (customer_of u row.tenant_id db)),
        after_rotation c row u (meanwhile db),
      ))
unfolding refresh
refresh-inv c meanwhile token db db' pair kept h =
    elim (Option-cases (find_token (c.hash_token token) TokenType.refresh db)) [
      | inl missing ↦
          let e : refresh c meanwhile token db ≡ (err Error.unauthorized, db) = rw missing refl in
          absurd (ground (arith, e, h))
      | inr (row, found) ↦ elim (Bool-cases (is_some row.used_at)) [
        | inl used ↦
            let e = reuse c meanwhile token db row found used in absurd (ground (arith, e, h))
        | inr fresh ↦ elim (session_of-cases c.now row db) [
          | inr (x, bad) ↦
              let e : refresh c meanwhile token db ≡ (err x, db) = rw (found, fresh, bad) refl in
              absurd (ground (arith, e, h))
          | inl (u, good, own) ↦
              let turned =
                rotated c row u (is_token (c.hash_token token) TokenType.refresh) (meanwhile db)
                  (kept db ∙ found) fresh in
              (row, u, found, fresh, own, rw (found, fresh, good, turned) refl)
        ]
      ]
    ]

-- The row under a refresh token, after the call that refreshed it.
refreshed :
    (c : TokenCalls) (meanwhile : AuthDb → AuthDb) (token : Text) (db db' : AuthDb)
    (pair : TokenPair)
    → ((d : AuthDb)
        → find_token (c.hash_token token) TokenType.refresh (meanwhile d)
          ≡ find_token (c.hash_token token) TokenType.refresh d)
    → refresh c meanwhile token db ≡ (ok pair, db')
    → (row : UserTokenRow) × (find_token (c.hash_token token) TokenType.refresh db' ≡ some row)
      × (is_some row.used_at ≡ true)
      × (row.user_id ≡ pair.user_id)
refreshed c meanwhile token db db' pair kept h =
    let (row, u, found, fresh, own, e) = refresh-inv c meanwhile token db db' pair kept h in
    let (row', at, used, same_user) =
      marked_row c.now (c.hash_token token) TokenType.refresh (is_unused_id row.id)
        (meanwhile db).user_tokens row (kept db ∙ found) (ground arith) in
    let same_db : after_rotation c row u (meanwhile db) ≡ db' = ap (λ x. x.1) (sym e ∙ h) in
    let same_pair : answer c row u (customer_of u row.tenant_id db) ≡ pair = ground (arith, e, h) in
    let there =
      find_first-append (is_token (c.hash_token token) TokenType.refresh)
        (update_where (is_unused_id row.id) (as_used c.now) (meanwhile db).user_tokens)
        (new_token c row u (meanwhile db) ∷ []) {a = row'} at in
    (row', rw (← same_db) there, used, same_user ∙ sym own ∙ ap (λ t. t.user_id) same_pair)

-- A refresh token is good for one refresh, whatever others do meanwhile that leaves its row alone. When it is
-- presented again, hashed the same, in any database that has the same row under it, the call is refused and
-- every session of the user is over, the new one as well.
pub refresh_twice :
    (c c' : TokenCalls) (meanwhile meanwhile' : AuthDb → AuthDb) (token : Text)
    (db db' later : AuthDb) (pair : TokenPair)
    → ((d : AuthDb)
        → find_token (c.hash_token token) TokenType.refresh (meanwhile d)
          ≡ find_token (c.hash_token token) TokenType.refresh d)
    → refresh c meanwhile token db ≡ (ok pair, db')
    → c'.hash_token token ≡ c.hash_token token
    → find_token (c.hash_token token) TokenType.refresh later
      ≡ find_token (c.hash_token token) TokenType.refresh db'
    → ((refresh c' meanwhile' token later).0 ≡ err Error.unauthorized)
      × (unused pair.user_id TokenType.refresh (refresh c' meanwhile' token later).1 ≡ 0)
refresh_twice c c' meanwhile meanwhile' token db db' later pair kept h same_hash same =
    let (row, found, used, own) = refreshed c meanwhile token db db' pair kept h in
    let e = reuse c' meanwhile' token later row (rw same_hash (same ∙ found)) used in
    rw (e, ← own) (refl, unused-revoked c'.now row.user_id TokenType.refresh later)

-- A refresh that finds its token unused and its session good, but loses the race, since the token is used up
-- between its reads and its transaction, is refused and changes nothing: no session ends, though the code
-- revokes them before it throws.
pub refresh_race :
    (c : TokenCalls) (meanwhile : AuthDb → AuthDb) (token : Text) (db : AuthDb) (row : UserTokenRow)
    (user : UserRow) (customer : Option ℕ)
    → find_token (c.hash_token token) TokenType.refresh db ≡ some row
    → is_some row.used_at ≡ false
    → session_of c.now row db ≡ ok ((user, customer), db)
    → count_where (is_unused_id row.id) (meanwhile db).user_tokens ≡ 0
    → refresh c meanwhile token db ≡ (err Error.unauthorized, meanwhile db)
unfolding refresh rotate
refresh_race c meanwhile token db row user customer found fresh good gone =
    rw (found, fresh, good, gone) refl
