-- ===== src/Auth/Repository.antt =====
-- apps/server/src/modules/auth/adapters/outbound/sqlite-auth.ts: the tables of the state. A key that
-- is taken throws.
use palmagent.Common.{
  ℕ, String, Bool, ◌&&◌, not, Option, none, some, [], ◌∷◌, ◌++◌, any, find, keep, modify, length,
  is_none, ltb, ◌==◌, string_eq, unexpected, Result, ok, ◌>>◌, refuse_if,
}
use palmagent.Auth.Types.{StoredCredential, Session, EnrollToken, AuthState}

abbrev pub has_credential : String → StoredCredential → Bool
has_credential id c = c.credential_id == id

unfoldable pub insert_credential : StoredCredential → AuthState → Result AuthState
insert_credential c s = do
  refuse_if (any (has_credential c.credential_id) s.credentials)
      (unexpected "UNIQUE constraint failed: webauthn_credentials")
  ok (record s { credentials = s.credentials ++ c ∷ [] })

unfoldable pub get_credential : String → AuthState → Option StoredCredential
get_credential id s = find (has_credential id) s.credentials

unfoldable pub count_credentials : AuthState → ℕ
count_credentials s = length s.credentials

unfoldable pub bump_credential_counter : String → ℕ → ℕ → AuthState → AuthState
bump_credential_counter id counter now s = record s {
  credentials =
      modify (has_credential id) (λ c. record c { counter = counter; last_used_at = some now })
        s.credentials;
}

-- Whether a row was deleted, and the tables.
unfoldable pub delete_credential : String → AuthState → Bool × AuthState
delete_credential id s = (
  any (has_credential id) s.credentials,
  record s { credentials = keep (λ c. not (has_credential id c)) s.credentials },
)

abbrev pub has_token : String → Session → Bool
has_token token x = x.token == token

unfoldable pub create_session : String → ℕ → ℕ → Option String → AuthState → Result AuthState
create_session token created_at expires_at label s = do
  refuse_if (any (has_token token) s.sessions)
      (unexpected "UNIQUE constraint failed: auth_sessions")
  ok (record s {
    sessions =
        s.sessions
        ++ record { token = token; created_at = created_at; expires_at = expires_at; label = label }
          ∷ [];
  })

unfoldable pub get_session : String → AuthState → Option Session
get_session token s = find (has_token token) s.sessions

unfoldable pub refresh_session : String → ℕ → AuthState → AuthState
refresh_session token expires_at s = record s {
  sessions = modify (has_token token) (λ x. record x { expires_at = expires_at }) s.sessions;
}

unfoldable pub delete_session : String → AuthState → AuthState
delete_session token s = record s { sessions = keep (λ x. not (has_token token x)) s.sessions }

unfoldable pub prune_expired_sessions : ℕ → AuthState → AuthState
prune_expired_sessions now s = record s { sessions = keep (λ x. ltb now x.expires_at) s.sessions }

unfoldable pub create_enroll_token : String → ℕ → Option String → AuthState → Result AuthState
create_enroll_token token expires_at session_token s = do
  refuse_if (any (λ t. t.token == token) s.enroll_tokens)
      (unexpected "UNIQUE constraint failed: enroll_tokens")
  ok (record s {
    enroll_tokens =
        s.enroll_tokens
        ++ record {
          token = token;
          expires_at = expires_at;
          used_at = none;
          session_token = session_token;
        }
          ∷ [];
  })

-- `token = ? AND used_at IS NULL AND expires_at > ?`
abbrev pub usable : String → ℕ → EnrollToken → Bool
usable token now t = t.token == token && is_none t.used_at && ltb now t.expires_at

unfoldable pub get_enroll_token : String → ℕ → AuthState → Option EnrollToken
get_enroll_token token now s = find (usable token now) s.enroll_tokens

unfoldable pub consume_enroll_token : String → ℕ → AuthState → Bool × AuthState
consume_enroll_token token now s = (
  any (usable token now) s.enroll_tokens,
  record s {
    enroll_tokens =
        modify (usable token now) (λ t. record t { used_at = some now }) s.enroll_tokens;
  },
)

unfoldable pub revoke_all : AuthState → AuthState
revoke_all s = record s { sessions = []; enroll_tokens = [] }
