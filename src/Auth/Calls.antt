-- ===== src/Auth/Calls.antt =====
-- The calls of apps/server/src/modules/auth/application/use-cases/auth-service.ts one after another,
-- and the two that revoke every session.
use palmagent.Common.{ℕ, ◌≡◌, String, Option, ok, string_eq, option_eq, nat_eq}
use palmagent.Auth.Types.{StoredCredential, ChallengeEntry, AuthAction, AuthCredentials, AuthState}
use palmagent.Auth.Service.{verify_session, logout, logout_all, remove_key}
use palmagent.Auth.Ceremonies.{
  Verified, begin_reauthentication, finish_reauthentication, grant_authorization,
  begin_registration, offer_registration, finish_registration, register,
}
use palmagent.Auth.SignIn.{
  verify_assertion, begin_authentication, finish_authentication, sign_in, mint_enroll_token,
  authorize_enrollment,
}

-- A call of the service, or the rest of one after its wait, that ended with a result or a throw.
pub data Step (ttl : ℕ) : AuthState → AuthState → Type 0 where
  verifies :
      (now : ℕ) (token : Option String) (s : AuthState)
      → Step ttl s (verify_session ttl now token s).1
  logs_out : (c : AuthCredentials) (s : AuthState) → Step ttl s (logout c s)
  logs_out_all :
      (now : ℕ) (c : AuthCredentials) (authorization : String) (s : AuthState)
      → Step ttl s (logout_all ttl now c authorization s).1
  removes_key :
      (now : ℕ) (c : AuthCredentials) (authorization id : String) (s : AuthState)
      → Step ttl s (remove_key ttl now c authorization id s).1
  begins_reauthentication :
      (now : ℕ) (c : AuthCredentials) (action : AuthAction) (challenge id : String) (s : AuthState)
      → Step ttl s (begin_reauthentication ttl now c action challenge id s).1
  finishes_reauthentication :
      (now : ℕ) (c : AuthCredentials) (s : AuthState)
      → Step ttl s (finish_reauthentication ttl now c s).1
  asserts :
      (now : ℕ) (id : String) (c : StoredCredential) (generation : ℕ) (counter : Option ℕ)
      (s : AuthState)
      → Step ttl s (verify_assertion ttl now id c generation counter s).1
  grants :
      (now : ℕ) (c : AuthCredentials) (entry : ChallengeEntry) (credential : StoredCredential)
      (id : String) (s : AuthState)
      → Step ttl s (grant_authorization ttl now c entry credential id s).1
  begins_registration :
      (now : ℕ) (c : AuthCredentials) (token authorization : Option String) (s : AuthState)
      → Step ttl s (begin_registration ttl now c token authorization s).1
  offers_registration :
      (now : ℕ) (session token : Option String) (challenge id : String) (s : AuthState)
      → Step ttl s (offer_registration ttl now session token challenge id s).1
  finishes_registration :
      (now : ℕ) (c : AuthCredentials) (s : AuthState)
      → Step ttl s (finish_registration ttl now c s).1
  registers :
      (now : ℕ) (c : AuthCredentials) (entry : ChallengeEntry) (generation : ℕ)
      (v : Option Verified) (short label : Option String) (token : String) (s : AuthState)
      → Step ttl s (register ttl now c entry generation v short label token s).1
  begins_authentication :
      (now : ℕ) (challenge id : String) (s : AuthState)
      → Step ttl s (begin_authentication ttl now challenge id s).1
  finishes_authentication :
      (now : ℕ) (c : AuthCredentials) (id : String) (s : AuthState)
      → Step ttl s (finish_authentication ttl now c id s).1
  signs_in :
      (now : ℕ) (c : AuthCredentials) (id : String) (credential : StoredCredential) (generation : ℕ)
      (counter : Option ℕ) (token : String) (s : AuthState)
      → Step ttl s (sign_in ttl now c id credential generation counter token s).1
  mints_token :
      (now : ℕ) (token : String) (s : AuthState) → Step ttl s (mint_enroll_token ttl now token s).1
  authorizes_enrollment :
      (now : ℕ) (c : AuthCredentials) (authorization token : String) (s : AuthState)
      → Step ttl s (authorize_enrollment ttl now c authorization token s).1

pub data Reach (ttl : ℕ) (s : AuthState) : AuthState → Type 0 where
  here : Reach ttl s s
  next : {t u : AuthState} → Reach ttl s t → Step ttl t u → Reach ttl s u

-- The caller signs out everywhere, or a passkey is removed.
pub data Revokes (ttl : ℕ) : AuthState → AuthState → Type 0 where
  everywhere :
      (now : ℕ) (c : AuthCredentials) (authorization : String) (s : AuthState)
      → (logout_all ttl now c authorization s).0 ≡ ok tt
      → Revokes ttl s (logout_all ttl now c authorization s).1
  passkey :
      (now : ℕ) (c : AuthCredentials) (authorization id : String) (s : AuthState)
      → (remove_key ttl now c authorization id s).0 ≡ ok tt
      → Revokes ttl s (remove_key ttl now c authorization id s).1
