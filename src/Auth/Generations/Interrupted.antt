-- ===== src/Auth/Generations/Interrupted.antt =====
-- A ceremony of auth-service.ts that a revocation interrupts.
use palmagent.Common.{
  ℕ, ◌<◌, ◌≡◌, refl, String, false, Option, none, some, Result, ok, err, ◌>>◌, >>-ok, Refuses,
  application, bad_request, string_eq, option_eq, arith, ◌==◌, nat_eq,
}
use palmagent.Auth.Types.{StoredCredential, ChallengeEntry, reg, auth, AuthCredentials, AuthState}
use palmagent.Auth.Repository.{get_credential}
use palmagent.Auth.Service.{take_challenge, after}
use palmagent.Auth.Ceremonies.{Verified, authorized, finish_registration, register}
use palmagent.Auth.SignIn.{begin_assertion, verify_assertion, finish_authentication, sign_in}
use palmagent.Auth.Calls.{Reach, Revokes}
use palmagent.Auth.Generations.{Reach-Since, Revokes-generation}

-- A call that began in the generation of `s`, a revocation some calls later, and calls after it.
pub data Superseded (ttl : ℕ) (s : AuthState) : AuthState → Type 0 where
  revoked :
      {t u v : AuthState} → Reach ttl s t → Revokes ttl t u → Reach ttl u v → Superseded ttl s v

Superseded-later : {ttl : ℕ} {s v : AuthState} → Superseded ttl s v → s.generation < v.generation
Superseded-later {s = s} (revoked {t} {u} {v} r k q) = omega (
  arith,
  Reach-Since s.generation r (omega arith),
  Revokes-generation k,
  Reach-Since u.generation q (omega arith),
)

finish_registration-generation :
    (ttl now : ℕ) (c : AuthCredentials) (s : AuthState) {entry : ChallengeEntry} {g : ℕ}
    → (finish_registration ttl now c s).0 ≡ ok (entry, g)
    → g ≡ (finish_registration ttl now c s).1.generation
unfolding finish_registration
finish_registration-generation ttl now c s h = go (take_challenge now c.challenge_id reg s) h
  where
    go :
        (r : Result ChallengeEntry × AuthState) {entry : ChallengeEntry} {g : ℕ}
        → (after {A = ChallengeEntry × ℕ} r (λ entry t.
            ((do authorized ttl now c t.generation entry t; ok (entry, t.generation)), t))).0
          ≡ ok (entry, g)
        → g
          ≡ (after {A = ChallengeEntry × ℕ} r (λ entry t. (
            (do authorized ttl now c t.generation entry t; ok (entry, t.generation)),
            t,
          ))).1.generation
    go (ok e, t) h =
        let p = >>-ok (authorized ttl now c t.generation e t) (ok (e, t.generation)) h in cc p.1
    go (err e, t) h = cc

finish_authentication-generation :
    (ttl now : ℕ) (c : AuthCredentials) (id : String) (s : AuthState)
    {credential : StoredCredential} {g : ℕ}
    → (finish_authentication ttl now c id s).0 ≡ ok (credential, g)
    → g ≡ (finish_authentication ttl now c id s).1.generation
unfolding finish_authentication begin_assertion
finish_authentication-generation ttl now c id s h = go (take_challenge now c.challenge_id auth s) h
  where
    found :
        (o : Option StoredCredential) (t : AuthState) {credential : StoredCredential} {g : ℕ}
        → (elim o as (λ _. Result (StoredCredential × ℕ)) [
          | none ↦ err (application bad_request "unknown passkey")
          | some c ↦ ok (c, t.generation)
        ])
          ≡ ok (credential, g)
        → g ≡ t.generation
    found none t h = cc
    found (some c) t h = cc

    go :
        (r : Result ChallengeEntry × AuthState) {credential : StoredCredential} {g : ℕ}
        → (after r (λ entry t. (begin_assertion ttl id t, t))).0 ≡ ok (credential, g)
        → g
          ≡ (after {A = StoredCredential × ℕ} r
              (λ entry t. (begin_assertion ttl id t, t))).1.generation
    go (ok e, t) h = found (get_credential id t) t h
    go (err e, t) h = cc

register-Refuses :
    (ttl now : ℕ) (c : AuthCredentials) (entry : ChallengeEntry) (g : ℕ) (v : Option Verified)
    (short label : Option String) (token : String) (s : AuthState)
    → (g == s.generation) ≡ false
    → Refuses (register ttl now c entry g v short label token s) s
unfolding register authorized
register-Refuses ttl now c entry g none short label token s h = (refl, refl)
register-Refuses ttl now c entry g (some v) short label token s h = rw h (refl, refl)

sign_in-Refuses :
    (ttl now : ℕ) (c : AuthCredentials) (id : String) (credential : StoredCredential) (g : ℕ)
    (counter : Option ℕ) (token : String) (s : AuthState)
    → (g == s.generation) ≡ false
    → Refuses (sign_in ttl now c id credential g counter token s) s
unfolding sign_in verify_assertion
sign_in-Refuses ttl now c id credential g none token s h = (refl, refl)
sign_in-Refuses ttl now c id credential g (some counter) token s h = rw h (refl, refl)

-- A registration that began before a passkey was removed or the caller signed out everywhere,
-- whatever calls lie between and whatever the passkey library answers, is refused after its wait and
-- changes nothing.
pub revoked_registration :
    (ttl now later : ℕ) (c : AuthCredentials) (entry : ChallengeEntry) (g : ℕ) (v : Option Verified)
    (short label : Option String) (token : String) (s t : AuthState)
    → (finish_registration ttl now c s).0 ≡ ok (entry, g)
    → Superseded ttl (finish_registration ttl now c s).1 t
    → Refuses (register ttl later c entry g v short label token t) t
revoked_registration ttl now later c entry g v short label token s t h r =
    let e = finish_registration-generation ttl now c s h in
    let l = Superseded-later r in
    register-Refuses ttl later c entry g v short label token t (ground (arith, e, l))

-- A login that began before a passkey was removed or the caller signed out everywhere, whatever
-- calls lie between and whatever the passkey library answers, is refused after its wait, opens no
-- session and changes nothing.
pub revoked_login :
    (ttl now later : ℕ) (c : AuthCredentials) (id : String) (credential : StoredCredential) (g : ℕ)
    (counter : Option ℕ) (token : String) (s t : AuthState)
    → (finish_authentication ttl now c id s).0 ≡ ok (credential, g)
    → Superseded ttl (finish_authentication ttl now c id s).1 t
    → Refuses (sign_in ttl later c id credential g counter token t) t
revoked_login ttl now later c id credential g counter token s t h r =
    let e = finish_authentication-generation ttl now c id s h in
    let l = Superseded-later r in
    sign_in-Refuses ttl later c id credential g counter token t (ground (arith, e, l))
