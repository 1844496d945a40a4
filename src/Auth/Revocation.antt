-- ===== src/Auth/Revocation.antt =====
-- What the removal of a passkey ends, and who may remove one: auth-service.ts.
use palmagent.Common.{
  ℕ, suc, ◌≡◌, refl, sym, ◌∙◌, ap, String, Bool, true, false, not, Option, none, some, List, [],
  ◌∷◌, any, keep, ◌==◌, nat_eq, string_eq, option_eq, Failure, Result, ok, err, refuse_if,
  refuse_if-ok, >>-ok, ◌||◌, or_else, Bool-cases, inl, inr, checked, application, forbidden, arith,
}
use palmagent.Auth.Types.{
  grant, StoredCredential, ChallengeEntry, AuthAction, enroll, revoke_sessions, same_action,
  is_action, remove_passkey, AuthCredentials, AuthState,
}
use palmagent.Auth.Repository.{delete_credential, has_credential, revoke_all}
use palmagent.Auth.Service.{
  grant_check, take_challenge, usable_challenge, find_challenge, drop_challenge, given,
  session_valid, require_session, take_authorization, revoke, remove_key, removed, after,
}

any-keep-not :
    (p : StoredCredential → Bool) (cs : List StoredCredential)
    → any p (keep (λ c. not (p c)) cs) ≡ false
any-keep-not p [] = refl
any-keep-not p (c ∷ cs) = ground (arith, any-keep-not p cs)

-- All that a removal leaves.
pub record IsRevoked (before after : AuthState) : Type 0 where
  pub sessions : after.sessions ≡ []
  pub enroll_tokens : after.enroll_tokens ≡ []
  pub challenges : after.challenges ≡ []
  pub generation : after.generation ≡ suc before.generation

pub generation-take_authorization :
    (ttl now : ℕ) (c : AuthCredentials) (authorization : String) (action : AuthAction)
    (s : AuthState)
    → (take_authorization ttl now c authorization action s).1.generation ≡ s.generation
unfolding take_authorization take_challenge
generation-take_authorization ttl now c authorization action s = go (require_session ttl now c s)
  where
    dropped : (o : Option String) → (drop_challenge o s).generation ≡ s.generation
    dropped none = refl
    dropped (some id) = refl

    taken :
        (token : String) (r : Result ChallengeEntry) (t : AuthState)
        → t.generation ≡ s.generation
        → (after {B = ChallengeEntry}
            (r, t)
            (λ g u. (grant_check ttl token action g, u))).1.generation
          ≡ s.generation
    taken token (ok g) t h = h
    taken token (err e) t h = h

    go :
        (r : Result String)
        → (checked r s (λ token.
            after
              (take_challenge now (some authorization) grant s)
              (λ g t. (grant_check ttl token action g, t)))).1.generation
          ≡ s.generation
    go (ok token) =
        taken token (usable_challenge now grant (find_challenge (given (some authorization)) s))
          (drop_challenge (given (some authorization)) s) (dropped (given (some authorization)))
    go (err e) = refl

removal-ok :
    (ttl : ℕ) (own there : Bool) (e : Failure) (t u : AuthState)
    → (checked (refuse_if own e) t (λ _. removed ttl (there, u) t)).0 ≡ ok tt
    → (own ≡ false) × ((checked (refuse_if own e) t (λ _. removed ttl (there, u) t)).1 ≡ revoke u)
unfolding revoke
removal-ok ttl true there e t u h = cc
removal-ok ttl false true e t u h = (refl, refl)
removal-ok ttl false false e t u h = cc

-- A step that wrote and went on.
after-ok :
    {A B : Type 0} (r : Result B × AuthState) (k : B → AuthState → Result A × AuthState) {a : A}
    → (after r k).0 ≡ ok a
    → (b : B) × (r.0 ≡ ok b) × (after r k ≡ k b r.1)
after-ok (ok b, t) k h = (b, refl, refl)
after-ok (err e, t) k h = cc

same_action-eq : (a b : AuthAction) → same_action a b ≡ true → a ≡ b
same_action-eq enroll enroll h = refl
same_action-eq enroll revoke_sessions h = cc
same_action-eq enroll remove_passkey h = cc
same_action-eq revoke_sessions enroll h = cc
same_action-eq revoke_sessions revoke_sessions h = refl
same_action-eq revoke_sessions remove_passkey h = cc
same_action-eq remove_passkey enroll h = cc
same_action-eq remove_passkey revoke_sessions h = cc
same_action-eq remove_passkey remove_passkey h = refl

is_action-eq : (a : AuthAction) (o : Option AuthAction) → is_action a o ≡ true → o ≡ some a
is_action-eq a none h = cc
is_action-eq a (some b) h = ap some (same_action-eq b a h)

grant_check-ok :
    (ttl : ℕ) (token : String) (action : AuthAction) (g : ChallengeEntry) {e : ChallengeEntry}
    → grant_check ttl token action g ≡ ok e
    → (e.session_token ≡ some token) × (e.action ≡ some action)
grant_check-ok ttl token action g {e} h =
    let wrong = not (g.session_token == some token) || not (is_action action g.action) in
    let denied = application forbidden "Verify your passkey again for this action" in
    let (passed, same) = >>-ok (refuse_if wrong denied) (ok g) h in
    let right : wrong ≡ false = refuse_if-ok wrong denied passed in
    let o : g.session_token ≡ some token =
      (option_eq.beq_iff g.session_token (some token)).0 (ground (arith, right)) in
    let a : g.action ≡ some action = is_action-eq action g.action (ground (arith, right)) in
    let k : g ≡ e = cc same in (rw (sym k) o, rw (sym k) a)

-- A caller who is signed in has a session token.
token_of_valid :
    (ttl now : ℕ) (o : Option String) (s : AuthState)
    → session_valid ttl now o s ≡ true
    → o ≡ some (or_else o "")
unfolding session_valid
token_of_valid ttl now none s h = cc
token_of_valid ttl now (some token) s h = refl

-- A grant that is taken was given for the action, in the session of the caller, which is live.
take_authorization-ok :
    (ttl now : ℕ) (c : AuthCredentials) (authorization : String) (action : AuthAction)
    (s : AuthState) {g : ChallengeEntry}
    → (take_authorization ttl now c authorization action s).0 ≡ ok g
    → (session_valid ttl now c.session_token s ≡ true)
      × (g.session_token ≡ c.session_token)
      × (g.action ≡ some action)
unfolding take_authorization require_session
take_authorization-ok ttl now c authorization action s {g} =
    elim (Bool-cases (session_valid ttl now c.session_token s)) [
      | inr n ↦ rw n (λ h. cc)
      | inl y ↦ rw y (λ h.
          let token = or_else c.session_token "" in
          let (b, took, rest) =
            after-ok {A = ChallengeEntry} {B = ChallengeEntry}
              (take_challenge now (some authorization) grant s)
              (λ g t. (grant_check ttl token action g, t)) h in
          let (own, act) = grant_check-ok ttl token action b (sym (ap (λ q. q.0) rest) ∙ h) in
          (refl, own ∙ sym (token_of_valid ttl now c.session_token s y), act))
    ]

-- What was there before the removal, and what the removal leaves.
pub record IsRemoval (ttl now : ℕ) (c : AuthCredentials) (authorization id : String)
    (s t : AuthState) : Type 0 where
  pub granted : ChallengeEntry
  pub taken : (take_authorization ttl now c authorization remove_passkey s).0 ≡ ok granted
  pub live : session_valid ttl now c.session_token s ≡ true
  pub own : granted.session_token ≡ c.session_token
  pub for_removal : granted.action ≡ some remove_passkey
  pub other : (granted.credential_id == some id) ≡ false
  pub gone : any (has_credential id) t.credentials ≡ false
  pub ended : IsRevoked s t

-- A passkey is removed only for a live session, with a grant of that session, for a removal, that
-- another passkey gave. The passkey is gone, and the removal ends every session, enrollment token and challenge, and begins a new
-- generation.
pub remove_key_revokes :
    (ttl now : ℕ) (c : AuthCredentials) (authorization id : String) (s : AuthState)
    → (remove_key ttl now c authorization id s).0 ≡ ok tt
    → IsRemoval ttl now c authorization id s (remove_key ttl now c authorization id s).1
unfolding remove_key revoke revoke_all delete_credential
remove_key_revokes ttl now c authorization id s h =
    let r = take_authorization ttl now c authorization remove_passkey s in
    let e : Failure =
      application forbidden "Use a different passkey to authorize removing this one" in
    let (g, took, rest) =
      after-ok {A = Unit {0}} {B = ChallengeEntry} r
        (λ g t.
          checked (refuse_if (g.credential_id == some id) e) t
            (λ _. removed ttl (delete_credential id t) t))
        h in
    let (other, left) =
      removal-ok ttl (g.credential_id == some id) (any (has_credential id) r.1.credentials) e r.1
        (delete_credential id r.1).1 (sym (ap (λ q. q.0) rest) ∙ h) in
    let (live, own, action) = take_authorization-ok ttl now c authorization remove_passkey s took in
    let state = ap (λ q. q.1) rest ∙ left in
    record {
      granted = g;
      taken = took;
      live = live;
      own = own;
      for_removal = action;
      other = other;
      gone =
          ap (λ t. any (has_credential id) t.credentials) state
          ∙ any-keep-not (has_credential id) r.1.credentials;
      ended = record {
        sessions = ap (λ t. t.sessions) state;
        enroll_tokens = ap (λ t. t.enroll_tokens) state;
        challenges = ap (λ t. t.challenges) state;
        generation =
            ap (λ t. t.generation) state
            ∙ ap suc (generation-take_authorization ttl now c authorization remove_passkey s);
      };
    }
