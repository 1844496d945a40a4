-- ===== src/Auth/SignIn.antt =====
-- Signing in with a passkey, and enrollment tokens: auth-service.ts of
-- apps/server/src/modules/auth/application/use-cases. The part of a method after its wait stands in a
-- function of its own.
use palmagent.Common.{
  ℕ, ◌+◌, String, Bool, true, ◌||◌, not, Option, none, some, ◌==◌, nat_eq, string_eq, option_eq,
  application, unauthorized, bad_request, Result, ok, err, refuse_if, checked,
}
use palmagent.Auth.Types.{
  StoredCredential, auth, enroll, AuthCredentials, AuthState, challenge_ttl_ms, enroll_ttl_ms,
}
use palmagent.Auth.Repository.{get_credential, bump_credential_counter, create_enroll_token}
use palmagent.Auth.Service.{
  issue_session, logout, put_challenge, take_challenge, take_authorization, after,
}

module _ (ttl : ℕ) where
  -- `verifyAssertion` before the wait: the credential and the generation it is read in.
  unfoldable pub begin_assertion : String → AuthState → Result (StoredCredential × ℕ)
  unfolding get_credential
  begin_assertion id s = elim (get_credential id s) [
    | none ↦ err (application bad_request "unknown passkey")
    | some c ↦ ok (c, s.generation)
  ]

  abbrev pub counter_moved : StoredCredential → Option StoredCredential → Bool
  counter_moved c none = true
  counter_moved c (some d) = not (d.counter == c.counter)

  -- After it: the counter that was verified replaces the one that was read, if that still stands.
  unfoldable pub verify_assertion :
      ℕ → String → StoredCredential → ℕ → Option ℕ → AuthState → Result StoredCredential × AuthState
  unfolding get_credential bump_credential_counter
  verify_assertion now id c generation none s =
      (err (application unauthorized "passkey assertion failed"), s)
  verify_assertion now id c generation (some counter) s =
      checked
        (refuse_if (not (generation == s.generation) || counter_moved c (get_credential id s))
          (application unauthorized "Passkey changed — sign in again"))
        s (λ _. (ok c, bump_credential_counter c.credential_id counter now s))

  unfoldable pub begin_authentication : ℕ → String → String → AuthState → String × AuthState
  unfolding put_challenge
  begin_authentication now challenge id s = (
    id,
    put_challenge now id
        (record {
          challenge = challenge;
          expires_at = now + challenge_ttl_ms;
          kind = auth;
          enroll_token = none;
          session_token = none;
          action = none;
          credential_id = none;
        })
        s,
  )

  -- `finishAuthentication` up to the wait.
  unfoldable pub finish_authentication :
      ℕ → AuthCredentials → String → AuthState → Result (StoredCredential × ℕ) × AuthState
  unfolding take_challenge begin_assertion
  finish_authentication now c id s =
      after (take_challenge now c.challenge_id auth s) (λ entry t. (begin_assertion id t, t))

  -- The rest: the assertion, and a new session for the old one.
  unfoldable pub sign_in :
      ℕ
      → AuthCredentials
      → String
      → StoredCredential
      → ℕ
      → Option ℕ
      → String
      → AuthState
      → Result (Unit {0}) × AuthState
  unfolding verify_assertion logout issue_session
  sign_in now c id credential generation counter token s =
      after (verify_assertion now id credential generation counter s) (λ _ t.
        checked
          (refuse_if (not (generation == t.generation))
            (application unauthorized "Sign in again to continue"))
          t
          (λ _.
            let left = logout c t in
            checked (issue_session ttl now token credential.label left) left (λ u. (ok tt, u))))

  unfoldable pub mint_enroll_token : ℕ → String → AuthState → Result (Unit {0}) × AuthState
  unfolding create_enroll_token
  mint_enroll_token now token s =
      checked (create_enroll_token token (now + enroll_ttl_ms) none s) s (λ t. (ok tt, t))

  unfoldable pub authorize_enrollment :
      ℕ → AuthCredentials → String → String → AuthState → Result (Unit {0}) × AuthState
  unfolding take_authorization create_enroll_token
  authorize_enrollment now c authorization token s =
      after (take_authorization ttl now c authorization enroll s) (λ g t.
        checked (create_enroll_token token (now + enroll_ttl_ms) c.session_token t) t
          (λ u. (ok tt, u)))
