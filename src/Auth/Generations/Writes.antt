-- ===== src/Auth/Generations/Writes.antt =====
-- What the calls of auth-service.ts are made of keeps the generation.
use palmagent.Common.{
  ℕ, ◌≤◌, String, Option, none, some, Result, ok, err, ◌>>=◌, ◌>>◌, checked, string_eq, option_eq,
  if-keeps, arith, nat_eq,
}
use palmagent.Auth.Types.{StoredCredential, ChallengeKind, AuthAction, AuthCredentials, AuthState}
use palmagent.Auth.Repository.{
  insert_credential, create_session, delete_session, create_enroll_token,
}
use palmagent.Auth.Service.{
  given, drop_session, verify_session, issue_session, logout_given, logout, drop_challenge,
  take_challenge, take_authorization, after,
}
use palmagent.Auth.Revocation.{generation-take_authorization}

-- The generation is `n` or a later one.
abbrev pub Since : ℕ → AuthState → Type 0
Since n s = n ≤ s.generation

pub after-Since :
    {A B : Type 0} (n : ℕ) (r : Result B × AuthState) (k : B → AuthState → Result A × AuthState)
    → Since n r.1
    → ((b : B) (t : AuthState) → Since n t → Since n (k b t).1)
    → Since n (after r k).1
after-Since n (ok b, t) k h step = step b t h
after-Since n (err e, t) k h step = h

abbrev pub SinceEach : ℕ → Result AuthState → Type 0
SinceEach n (ok t) = Since n t
SinceEach n (err e) = Unit {0}

pub checked-Since :
    {A B : Type 0} (n : ℕ) (r : Result B) (s : AuthState) (k : B → Result A × AuthState)
    → Since n s
    → ((b : B) → Since n (k b).1)
    → Since n (checked r s k).1
checked-Since n (ok b) s k h step = step b
checked-Since n (err e) s k h step = h

-- The same for a write that may throw.
pub written-Since :
    {A : Type 0} (n : ℕ) (r : Result AuthState) (s : AuthState)
    (k : AuthState → Result A × AuthState)
    → Since n s
    → SinceEach n r
    → ((t : AuthState) → Since n t → Since n (k t).1)
    → Since n (checked r s k).1
written-Since n (ok t) s k h each step = step t each
written-Since n (err e) s k h each step = h

-- A check before a write.
pub checked_before-Since :
    (n : ℕ) (m : Result (Unit {0})) (r : Result AuthState) → SinceEach n r → SinceEach n (m >> r)
checked_before-Since n (ok b) r h = h
checked_before-Since n (err e) r h = tt

-- A write after a write.
pub chained-Since :
    (n : ℕ) (r : Result AuthState) (k : AuthState → Result AuthState)
    → SinceEach n r
    → ((t : AuthState) → Since n t → SinceEach n (k t))
    → SinceEach n (r >>= k)
chained-Since n (ok t) k h step = step t h
chained-Since n (err e) k h step = tt

pub drop_challenge-Since :
    (n : ℕ) (id : Option String) (s : AuthState) → Since n s → Since n (drop_challenge id s)
drop_challenge-Since n none s h = h
drop_challenge-Since n (some id) s h = h

pub take_challenge-Since :
    (n now : ℕ) (id : Option String) (kind : ChallengeKind) (s : AuthState)
    → Since n s
    → Since n (take_challenge now id kind s).1
unfolding take_challenge
take_challenge-Since n now id kind s h = drop_challenge-Since n (given id) s h

pub take_authorization-Since :
    (n ttl now : ℕ) (c : AuthCredentials) (authorization : String) (action : AuthAction)
    (s : AuthState)
    → Since n s
    → Since n (take_authorization ttl now c authorization action s).1
take_authorization-Since n ttl now c authorization action s h =
    omega (arith, generation-take_authorization ttl now c authorization action s)

pub logout-Since : (n : ℕ) (c : AuthCredentials) (s : AuthState) → Since n s → Since n (logout c s)
unfolding logout delete_session
logout-Since n c s h = go (given c.session_token)
  where
    go : (o : Option String) → Since n (logout_given o s)
    go none = h
    go (some token) = h

pub verify_session-Since :
    (n ttl now : ℕ) (token : Option String) (s : AuthState)
    → Since n s
    → Since n (verify_session ttl now token s).1
unfolding verify_session delete_session
verify_session-Since n ttl now token s h = if-keeps (Since n) _ s _ h (go (given token))
  where
    go : (o : Option String) → Since n (drop_session ttl o s)
    go none = h
    go (some token) = h

pub issue_session-Since :
    (n ttl now : ℕ) (token : String) (label : Option String) (s : AuthState)
    → Since n s
    → SinceEach n (issue_session ttl now token label s)
unfolding issue_session create_session
issue_session-Since n ttl now token label s h = checked_before-Since n _ (ok _) h

pub create_enroll_token-Since :
    (n : ℕ) (token : String) (expires : ℕ) (session : Option String) (s : AuthState)
    → Since n s
    → SinceEach n (create_enroll_token token expires session s)
unfolding create_enroll_token
create_enroll_token-Since n token expires session s h = checked_before-Since n _ (ok _) h

pub insert_credential-Since :
    (n : ℕ) (c : StoredCredential) (s : AuthState) → Since n s → SinceEach n (insert_credential c s)
unfolding insert_credential
insert_credential-Since n c s h = checked_before-Since n _ (ok _) h
