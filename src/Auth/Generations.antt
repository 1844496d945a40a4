-- ===== src/Auth/Generations.antt =====
-- No call of auth-service.ts goes back to an earlier generation, and a revocation begins a new one.
pub mod Writes
pub mod Interrupted
use palmagent.Common.{
  ℕ, suc, ◌≤◌, ◌<◌, ◌≡◌, refl, sym, ◌∙◌, ap, String, Bool, true, false, Option, none, some, List,
  Failure, Result, ok, err, ◌>>=◌, ◌>>◌, checked, >>-ok, Refuses, is_some, refuse_if, is_err, any,
  or_else, application, forbidden, bad_request, string_eq, option_eq, if-keeps, if◌then◌else◌,
  arith, ◌==◌, nat_eq, checked-Refuses,
}
use palmagent.Auth.Types.{
  StoredCredential, ChallengeEntry, ChallengeKind, reg, auth, reauth, AuthAction, enroll,
  revoke_sessions, remove_passkey, EnrollToken, AuthCredentials, AuthState,
}
use palmagent.Auth.Repository.{
  has_credential, get_credential, get_enroll_token, revoke_all, insert_credential,
  delete_credential, create_session, delete_session, create_enroll_token, consume_enroll_token,
  bump_credential_counter,
}
use palmagent.Auth.Service.{
  given, drop_session, verify_session, issue_session, logout_given, logout, put_challenge,
  drop_challenge, take_challenge, take_authorization, removed, logout_all, remove_key, revoke,
  after,
}
use palmagent.Auth.Ceremonies.{
  Verified, begin_reauthentication, finish_reauthentication, grant_authorization,
  begin_registration, offer_registration, authorized, finish_registration, enrollment_session,
  session_gone, new_credential, spend_token, replaced, register,
}
use palmagent.Auth.SignIn.{
  begin_assertion, verify_assertion, begin_authentication, finish_authentication, sign_in,
  mint_enroll_token, authorize_enrollment,
}
use palmagent.Auth.Revocation.{remove_key_revokes, generation-take_authorization}
use palmagent.Auth.Calls.{
  Step, verifies, logs_out, logs_out_all, removes_key, begins_reauthentication,
  finishes_reauthentication, asserts, grants, begins_registration, offers_registration,
  finishes_registration, registers, begins_authentication, finishes_authentication, signs_in,
  mints_token, authorizes_enrollment, Reach, here, next, Revokes, everywhere, passkey,
}
use palmagent.Auth.Generations.Writes.{
  Since, after-Since, SinceEach, checked-Since, written-Since, checked_before-Since, chained-Since,
  drop_challenge-Since, take_challenge-Since, take_authorization-Since, logout-Since,
  verify_session-Since, issue_session-Since, create_enroll_token-Since, insert_credential-Since,
}

pub spend_token-Since :
    (n ttl now : ℕ) (token : Option String) (s : AuthState)
    → Since n s
    → SinceEach n (spend_token ttl now token s)
unfolding spend_token consume_enroll_token
spend_token-Since n ttl now none s h = h
spend_token-Since n ttl now (some token) s h = checked_before-Since n _ (ok _) h

pub replaced-Since :
    (n ttl now : ℕ) (c : AuthCredentials) (token : String) (label : Option String)
    (added s : AuthState)
    → Since n added
    → Since n s
    → Since n (replaced ttl now c token label added s).1
replaced-Since n ttl now c token label added s h p =
    let left = if is_some (given c.session_token) then logout c added else added in
    go left.challenges (issue_session ttl now token label left) (
      issue_session-Since n ttl now token label left (
        if-keeps (Since n) (is_some (given c.session_token)) (logout c added) added
          (logout-Since n c added h) h))
  where
    go :
        (cs : List (String × ChallengeEntry)) (r : Result AuthState)
        → SinceEach n r
        → Since n
            (elim r as (λ _. Result (Unit {0}) × AuthState) [
              | ok t ↦ (ok tt, t)
              | err e ↦ (err e, record s { challenges = cs })
            ]).1
    go cs (ok t) k = k
    go cs (err e) k = p

pub verify_assertion-Since :
    (n ttl now : ℕ) (id : String) (c : StoredCredential) (generation : ℕ) (counter : Option ℕ)
    (s : AuthState)
    → Since n s
    → Since n (verify_assertion ttl now id c generation counter s).1
unfolding verify_assertion bump_credential_counter
verify_assertion-Since n ttl now id c generation none s h = h
verify_assertion-Since n ttl now id c generation (some counter) s h =
    checked-Since n _ s _ h (λ _. h)

pub removed-Since :
    (n ttl : ℕ) (there : Bool) (t s : AuthState)
    → Since n t
    → Since n s
    → Since n (removed ttl (there, t) s).1
unfolding revoke revoke_all
removed-Since n ttl true t s h p = omega (arith, h)
removed-Since n ttl false t s h p = p

pub register-Since :
    (n ttl now : ℕ) (c : AuthCredentials) (entry : ChallengeEntry) (generation : ℕ)
    (v : Option Verified) (short label : Option String) (token : String) (s : AuthState)
    → Since n s
    → Since n (register ttl now c entry generation v short label token s).1
unfolding register
register-Since n ttl now c entry generation none short label token s h = h
register-Since n ttl now c entry generation (some v) short label token s h =
    let spent = spend_token ttl now (given entry.enroll_token) s in
    let add : AuthState → Result AuthState = insert_credential (new_credential ttl now v short) in
    written-Since n (authorized ttl now c generation entry s >> (spent >>= add)) s
      (λ added. replaced ttl now c token label added s) h
      (checked_before-Since n _ (spent >>= add) (
        chained-Since n spent add (spend_token-Since n ttl now (given entry.enroll_token) s h)
          (λ t k. insert_credential-Since n _ t k)))
      (λ t k. replaced-Since n ttl now c token label t s k h)

pub begin_registration-Since :
    (n ttl now : ℕ) (c : AuthCredentials) (token authorization : Option String) (s : AuthState)
    → Since n s
    → Since n (begin_registration ttl now c token authorization s).1
unfolding begin_registration
begin_registration-Since n ttl now c token authorization s h = go (given token)
  where
    go :
        (o : Option String)
        → Since n
            (elim o as (λ _. Result (Option String) × AuthState) [
              | none ↦
                  after
                    (take_authorization ttl now c (or_else authorization "") enroll s)
                    (λ g t. (ok c.session_token, t))
              | some token ↦
                  checked
                    (do
                      session ← enrollment_session ttl (get_enroll_token token now s)
                      refuse_if
                          (session_gone ttl now session s)
                          (application forbidden "Enrollment link has been revoked")
                      ok session)
                    s
                    (λ session. (ok session, s))
            ]).1
    go none =
        after-Since n (take_authorization ttl now c (or_else authorization "") enroll s) _
          (take_authorization-Since n ttl now c (or_else authorization "") enroll s h) (λ g t k. k)
    go (some token) = checked-Since n _ s _ h (λ _. h)

pub Step-Since : (n : ℕ) {ttl : ℕ} {s t : AuthState} → Step ttl s t → Since n s → Since n t
unfolding logout_all remove_key revoke revoke_all delete_credential begin_reauthentication
    put_challenge finish_reauthentication grant_authorization begin_registration offer_registration
    finish_registration register begin_authentication finish_authentication sign_in
    mint_enroll_token authorize_enrollment
Step-Since n {ttl} (verifies now token s) h = verify_session-Since n ttl now token s h
Step-Since n (logs_out c s) h = logout-Since n c s h
Step-Since n {ttl} (logs_out_all now c authorization s) h =
    after-Since n (take_authorization ttl now c authorization revoke_sessions s) _
      (take_authorization-Since n ttl now c authorization revoke_sessions s h)
      (λ g t k. omega (arith, k))
Step-Since n {ttl} (removes_key now c authorization id s) h =
    after-Since n (take_authorization ttl now c authorization remove_passkey s) _
      (take_authorization-Since n ttl now c authorization remove_passkey s h)
      (λ g t k.
        checked-Since n
          (refuse_if (g.credential_id == some id)
            (application forbidden "Use a different passkey to authorize removing this one"))
          t (λ _. removed ttl (delete_credential id t) t) k
          (λ _.
            removed-Since n ttl (any (has_credential id) t.credentials) (delete_credential id t).1 t
              k k))
Step-Since n (begins_reauthentication now c action challenge id s) h =
    checked-Since n _ s _ h (λ _. h)
Step-Since n (finishes_reauthentication now c s) h = checked-Since n _ s _ h (λ _.
    after-Since n (take_challenge now c.challenge_id reauth s) _
      (take_challenge-Since n now c.challenge_id reauth s h) (λ g t k. k))
Step-Since n {ttl} (asserts now id c generation counter s) h =
    verify_assertion-Since n ttl now id c generation counter s h
Step-Since n (grants now c entry credential id s) h = checked-Since n _ s _ h (λ _. h)
Step-Since n {ttl} (begins_registration now c token authorization s) h =
    begin_registration-Since n ttl now c token authorization s h
Step-Since n (offers_registration now session token challenge id s) h =
    checked-Since n _ s _ h (λ _. h)
Step-Since n (finishes_registration now c s) h =
    after-Since n (take_challenge now c.challenge_id reg s) _
      (take_challenge-Since n now c.challenge_id reg s h) (λ g t k. k)
Step-Since n {ttl} (registers now c entry generation v short label token s) h =
    register-Since n ttl now c entry generation v short label token s h
Step-Since n (begins_authentication now challenge id s) h = h
Step-Since n (finishes_authentication now c id s) h =
    after-Since n (take_challenge now c.challenge_id auth s) _
      (take_challenge-Since n now c.challenge_id auth s h) (λ g t k. k)
Step-Since n {ttl} (signs_in now c id credential generation counter token s) h =
    after-Since n (verify_assertion ttl now id credential generation counter s) _
      (verify_assertion-Since n ttl now id credential generation counter s h)
      (λ _ t k. checked-Since n _ t _ k (λ _.
        written-Since n _ (logout c t) _ (logout-Since n c t k)
          (issue_session-Since n ttl now token credential.label (logout c t) (logout-Since n c t k))
          (λ u l. l)))
Step-Since n (mints_token now token s) h =
    written-Since n _ s _ h (create_enroll_token-Since n token _ none s h) (λ t k. k)
Step-Since n {ttl} (authorizes_enrollment now c authorization token s) h =
    after-Since n (take_authorization ttl now c authorization enroll s) _
      (take_authorization-Since n ttl now c authorization enroll s h)
      (λ g t k.
        written-Since n _ t _ k (create_enroll_token-Since n token _ c.session_token t k)
          (λ u l. l))

pub Reach-Since : {ttl : ℕ} {s t : AuthState} (n : ℕ) → Reach ttl s t → Since n s → Since n t
Reach-Since n here h = h
Reach-Since n (next r p) h = Step-Since n p (Reach-Since n r h)

pub logout_all-ok :
    (r : Result ChallengeEntry × AuthState)
    → (after r (λ g t. (ok tt, revoke t))).0 ≡ ok tt
    → (after r (λ g t. (ok tt, revoke t))).1 ≡ revoke r.1
logout_all-ok (ok g, t) h = refl
logout_all-ok (err e, t) h = cc

pub Revokes-generation :
    {ttl : ℕ} {s t : AuthState} → Revokes ttl s t → t.generation ≡ suc s.generation
unfolding logout_all revoke
Revokes-generation {ttl} (everywhere now c authorization s h) =
    ap (λ t. t.generation)
      (logout_all-ok (take_authorization ttl now c authorization revoke_sessions s) h)
    ∙ ap suc (generation-take_authorization ttl now c authorization revoke_sessions s)
Revokes-generation {ttl} (passkey now c authorization id s h) =
    (remove_key_revokes ttl now c authorization id s h).ended.generation
