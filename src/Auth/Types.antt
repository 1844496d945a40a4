-- ===== src/Auth/Types.antt =====
-- The rows of sqlite-auth.ts, and the challenges and the state of auth-service.ts.
use palmagent.Common.{ℕ, ◌*◌, String, Bool, true, false, Option, none, some, List}

pub record StoredCredential : Type 0 where
  pub credential_id : String
  pub public_key : String
  pub counter : ℕ
  pub transports : Option (List String)
  pub label : Option String
  pub created_at : ℕ
  pub last_used_at : Option ℕ

pub record Session : Type 0 where
  pub token : String
  pub created_at : ℕ
  pub expires_at : ℕ
  pub label : Option String

pub record EnrollToken : Type 0 where
  pub token : String
  pub expires_at : ℕ
  pub used_at : Option ℕ
  pub session_token : Option String

pub data ChallengeKind : Type 0 where
  reg auth reauth grant : ChallengeKind

abbrev pub same_kind : ChallengeKind → ChallengeKind → Bool
same_kind reg reg = true
same_kind auth auth = true
same_kind reauth reauth = true
same_kind grant grant = true
same_kind _ _ = false

pub data AuthAction : Type 0 where
  enroll revoke_sessions remove_passkey : AuthAction

abbrev pub same_action : AuthAction → AuthAction → Bool
same_action enroll enroll = true
same_action revoke_sessions revoke_sessions = true
same_action remove_passkey remove_passkey = true
same_action _ _ = false

abbrev pub is_action : AuthAction → Option AuthAction → Bool
is_action a none = false
is_action a (some b) = same_action b a

pub record ChallengeEntry : Type 0 where
  pub challenge : String
  pub expires_at : ℕ
  pub kind : ChallengeKind
  pub enroll_token : Option String
  pub session_token : Option String
  pub action : Option AuthAction
  pub credential_id : Option String

pub record AuthCredentials : Type 0 where
  pub session_token : Option String
  pub challenge_id : Option String

-- The tables, and the memory of the service.
pub record AuthState : Type 0 where
  pub credentials : List StoredCredential
  pub sessions : List Session
  pub enroll_tokens : List EnrollToken
  -- The entries of the map, oldest first.
  pub challenges : List (String × ChallengeEntry)
  pub generation : ℕ

abbrev pub challenge_ttl_ms : ℕ
challenge_ttl_ms = 5 * 60 * 1000

abbrev pub max_challenges : ℕ
max_challenges = 2000

abbrev pub enroll_ttl_ms : ℕ
enroll_ttl_ms = 15 * 60 * 1000
