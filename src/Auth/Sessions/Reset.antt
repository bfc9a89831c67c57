-- ===== src/Auth/Sessions/Reset.antt =====
-- Resetting a password in services/auth/src/auth/services.ts.
use faktureringssystemet.Prelude.{ℕ, ◌==◌, update_where, count_where, ◌&&◌, not}
use faktureringssystemet.Shared.Text.{Text}
use faktureringssystemet.Auth.Tokens.{
  TokenType, UserTokenRow, AuthDb, TokenCalls, is_unused_id, is_unused_of, as_used, revoked,
  write_audit_log,
}
use faktureringssystemet.Auth.Sessions.{update_password}

-- What a reset comes to that finds its token unused.
abbrev reset_db : TokenCalls → Text → UserTokenRow → AuthDb → AuthDb
reset_db c new_password row db = write_audit_log row.tenant_id row.user_id "password.reset" (
    revoked c.now row.user_id TokenType.password_reset (
      revoked c.now row.user_id TokenType.refresh (
        update_password row.user_id (c.hash_password new_password) (record db {
          user_tokens = update_where (is_unused_id row.id) (as_used c.now) db.user_tokens;
        }))))

-- The user's tokens of a kind that could be used, beside a row.
abbrev pub others_open : UserTokenRow → TokenType → AuthDb → ℕ
others_open row kind db =
    count_where (λ r. is_unused_of row.user_id kind r && not (r.id == row.id)) db.user_tokens
