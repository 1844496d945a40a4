-- ===== src/Auth/Ceremonies.antt =====
-- The passkey ceremonies of apps/server/src/modules/auth/application/use-cases/auth-service.ts. The
-- part of a method after its wait stands in a function of its own: other calls run in between.
use palmagent.Common.{
  ℕ, ◌+◌, String, Bool, ◌&&◌, ◌||◌, not, Option, none, some, List, is_none, is_some, or_else, ◌==◌,
  nat_eq, string_eq, option_eq, if◌then◌else◌, application, forbidden, bad_request, Result, ok, err,
  ◌>>=◌, ◌>>◌, refuse_if, checked,
}
use palmagent.Auth.Types.{
  StoredCredential, EnrollToken, reg, reauth, grant, AuthAction, enroll, ChallengeEntry,
  AuthCredentials, AuthState, challenge_ttl_ms,
}
use palmagent.Auth.Repository.{insert_credential, get_enroll_token, consume_enroll_token}
use palmagent.Auth.Service.{
  given, session_valid, require_session, issue_session, logout, put_challenge, take_challenge,
  take_authorization, after,
}

-- What the passkey library verified: a new credential without its label and times.
pub record Verified : Type 0 where
  pub credential_id : String
  pub public_key : String
  pub counter : ℕ
  pub transports : Option (List String)

module _ (ttl : ℕ) where
  -- `beginReauthentication`, after the options are made; the session is checked again.
  unfoldable pub begin_reauthentication :
      ℕ → AuthCredentials → AuthAction → String → String → AuthState → Result String × AuthState
  unfolding require_session put_challenge
  begin_reauthentication now c action challenge id s =
      checked (require_session ttl now c s) s (λ token. (
        ok id,
        put_challenge now id
            (record {
              challenge = challenge;
              expires_at = now + challenge_ttl_ms;
              kind = reauth;
              enroll_token = none;
              session_token = some token;
              action = some action;
              credential_id = none;
            })
            s,
      ))

  -- `finishReauthentication` up to the verification: the entry that it took.
  unfoldable pub finish_reauthentication :
      ℕ → AuthCredentials → AuthState → Result ChallengeEntry × AuthState
  unfolding require_session take_challenge
  finish_reauthentication now c s = checked (require_session ttl now c s) s (λ token.
      after (take_challenge now c.challenge_id reauth s) (λ entry t. (
        (do
          refuse_if (not (entry.session_token == some token))
              (application forbidden "Passkey verification belongs to another session")
          ok entry),
        t,
      )))

  -- The rest, with the credential that answered: a grant of the same session and action.
  unfoldable pub grant_authorization :
      ℕ
      → AuthCredentials
      → ChallengeEntry
      → StoredCredential
      → String
      → AuthState
      → Result String × AuthState
  unfolding require_session put_challenge
  grant_authorization now c entry credential id s =
      checked (require_session ttl now c s) s (λ token. (
        ok id,
        put_challenge now id
            (record entry {
              kind = grant;
              credential_id = some credential.credential_id;
              expires_at = now + challenge_ttl_ms;
            })
            s,
      ))

  abbrev pub enrollment_session : Option EnrollToken → Result (Option String)
  enrollment_session none = err (application forbidden "Enrollment link is invalid or expired")
  enrollment_session (some t) = ok t.session_token

  -- The session that stands behind a ceremony is gone.
  abbrev pub session_gone : ℕ → Option String → AuthState → Bool
  session_gone now token s = is_some (given token) && not (session_valid ttl now token s)

  -- `beginRegistration` up to the options: the session behind the enrollment.
  unfoldable pub begin_registration :
      ℕ
      → AuthCredentials
      → Option String
      → Option String
      → AuthState
      → Result (Option String) × AuthState
  unfolding get_enroll_token session_valid take_authorization
  begin_registration now c enroll_token authorization s = elim (given enroll_token) [
    | none ↦
        after (take_authorization ttl now c (or_else authorization "") enroll s)
          (λ g t. (ok c.session_token, t))
    | some token ↦
        checked
          (do
            session ← enrollment_session (get_enroll_token token now s)
            refuse_if (session_gone now session s)
                (application forbidden "Enrollment link has been revoked")
            ok session)
          s (λ session. (ok session, s))
  ]

  unfoldable pub offer_registration :
      ℕ → Option String → Option String → String → String → AuthState → Result String × AuthState
  unfolding session_valid put_challenge
  offer_registration now session_token enroll_token challenge id s =
      checked
        (refuse_if (session_gone now session_token s)
          (application forbidden "Enrollment authorization has been revoked"))
        s
        (λ _. (
          ok id,
          put_challenge now id
              (record {
                challenge = challenge;
                expires_at = now + challenge_ttl_ms;
                kind = reg;
                enroll_token = enroll_token;
                session_token = session_token;
                action = none;
                credential_id = none;
              })
              s,
        ))

  -- `authorized` of `finishRegistration`, in the generation the ceremony began in.
  unfoldable pub authorized :
      ℕ → AuthCredentials → ℕ → ChallengeEntry → AuthState → Result (Unit {0})
  unfolding session_valid
  authorized now c generation entry s =
      refuse_if
        (not (generation == s.generation)
          || (is_some (given entry.session_token)
              && (not (session_valid ttl now entry.session_token s)
                  || (is_none (given entry.enroll_token)
                      && not (c.session_token == entry.session_token)))))
        (application forbidden "Enrollment authorization has been revoked")

  unfoldable pub finish_registration :
      ℕ → AuthCredentials → AuthState → Result (ChallengeEntry × ℕ) × AuthState
  unfolding take_challenge authorized
  finish_registration now c s =
      after (take_challenge now c.challenge_id reg s)
        (λ entry t. ((do authorized now c t.generation entry t; ok (entry, t.generation)), t))

  -- The enrollment token is spent in the transaction that adds the credential.
  unfoldable pub spend_token : ℕ → Option String → AuthState → Result AuthState
  unfolding consume_enroll_token
  spend_token now none s = ok s
  spend_token now (some token) s = do
    refuse_if (not (consume_enroll_token token now s).0)
        (application bad_request "enroll token already used or expired")
    ok (consume_enroll_token token now s).1

  abbrev pub new_credential : ℕ → Verified → Option String → StoredCredential
  new_credential now v label = record {
    credential_id = v.credential_id;
    public_key = v.public_key;
    counter = v.counter;
    transports = v.transports;
    label = label;
    created_at = now;
    last_used_at = some now;
  }

  abbrev pub verified_credential : Option Verified → Result Verified
  verified_credential none =
      err (application bad_request "passkey registration could not be verified")
  verified_credential (some v) = ok v

  -- The rest of `finishRegistration`: one transaction. The session of the browser is replaced. A
  -- session token that is taken rolls the tables back, not the challenges that were forgotten.
  abbrev pub replaced :
      ℕ
      → AuthCredentials
      → String
      → Option String
      → AuthState
      → AuthState
      → Result (Unit {0}) × AuthState
  replaced now c token label added s =
      let left = if is_some (given c.session_token) then logout c added else added in
      elim (issue_session ttl now token label left) [
        | ok t ↦ (ok tt, t)
        | err e ↦ (err e, record s { challenges = left.challenges })
      ]

  unfoldable pub register :
      ℕ
      → AuthCredentials
      → ChallengeEntry
      → ℕ
      → Option Verified
      → Option String
      → Option String
      → String
      → AuthState
      → Result (Unit {0}) × AuthState
  unfolding authorized spend_token insert_credential logout issue_session
  register now c entry generation verified short_label label token s =
      checked
        (do
          v ← verified_credential verified
          authorized now c generation entry s
          spent ← spend_token now (given entry.enroll_token) s
          insert_credential (new_credential now v short_label) spent)
        s (λ added. replaced now c token label added s)
