-- ===== src/Auth/Service.antt =====
-- apps/server/src/modules/auth/application/use-cases/auth-service.ts. The clock, the new random
-- tokens and the answers of the passkey library are arguments. A method that awaits that library is
-- two functions: what runs before the wait returns what the rest keeps, and the rest takes the state
-- it finds.
use palmagent.Common.{
  ℕ, suc, ◌+◌, String, Bool, true, false, ◌&&◌, ◌||◌, not, Option, none, some, List, [], ◌∷◌, ◌++◌,
  any, find, keep, modify, length, or_else, ltb, leb, ◌==◌, nat_eq, string_eq, option_eq,
  if◌then◌else◌, application, unauthorized, forbidden, not_found, bad_request, Result, ok, err,
  ◌>>◌, refuse_if, checked,
}
use palmagent.Auth.Types.{
  Session, ChallengeKind, grant, same_kind, AuthAction, revoke_sessions, remove_passkey, is_action,
  ChallengeEntry, AuthCredentials, AuthState, max_challenges,
}
use palmagent.Auth.Repository.{
  count_credentials, delete_credential, create_session, get_session, delete_session, revoke_all,
}

-- A string that is absent or empty is none.
abbrev pub given : Option String → Option String
given none = none
given (some t) = if t == "" then none else some t

module _ (ttl : ℕ) where
  abbrev pub live_session : ℕ → Option Session → Bool
  live_session now none = false
  live_session now (some x) = ltb now x.expires_at && ltb now (x.created_at + ttl)

  abbrev pub given_valid : ℕ → Option String → AuthState → Bool
  given_valid now none s = false
  given_valid now (some token) s = live_session now (get_session token s)

  unfoldable pub session_valid : ℕ → Option String → AuthState → Bool
  unfolding get_session
  session_valid now token s = given_valid now (given token) s

  abbrev pub drop_session : Option String → AuthState → AuthState
  drop_session none s = s
  drop_session (some token) s = delete_session token s

  unfoldable pub verify_session : ℕ → Option String → AuthState → Bool × AuthState
  unfolding session_valid delete_session
  verify_session now token s = (
    session_valid now token s,
    if session_valid now token s then s else drop_session (given token) s,
  )

  unfoldable pub require_session : ℕ → AuthCredentials → AuthState → Result String
  unfolding session_valid
  require_session now c s = do
    refuse_if (not (session_valid now c.session_token s))
        (application unauthorized "Sign in again to continue")
    ok (or_else c.session_token "")

  -- Whether the caller is signed in, and the number of passkeys.
  unfoldable pub status : ℕ → AuthCredentials → AuthState → (Bool × ℕ) × AuthState
  unfolding verify_session count_credentials
  status now c s = (
    (session_valid now c.session_token s, count_credentials s),
    (verify_session now c.session_token s).1,
  )

  unfoldable pub issue_session : ℕ → String → Option String → AuthState → Result AuthState
  unfolding create_session
  issue_session now token label s = create_session token now (now + ttl) label s

abbrev pub forget_session : String → AuthState → AuthState
forget_session token s = record s {
  challenges = keep (λ e. not (e.1.session_token == some token)) s.challenges;
}

abbrev pub logout_given : Option String → AuthState → AuthState
logout_given none s = s
logout_given (some token) s = forget_session token (delete_session token s)

unfoldable pub logout : AuthCredentials → AuthState → AuthState
unfolding delete_session
logout c s = logout_given (given c.session_token) s

unfoldable pub revoke : AuthState → AuthState
unfolding revoke_all
revoke s = record (revoke_all s) { generation = suc s.generation; challenges = [] }

abbrev pub has_challenge : String → String × ChallengeEntry → Bool
has_challenge id e = e.0 == id

-- `while (size >= MAX_CHALLENGES) delete the first`
unfoldable pub shrink : List (String × ChallengeEntry) → List (String × ChallengeEntry)
shrink [] = []
shrink (e ∷ es) =
    let rest = shrink es in if leb max_challenges (length (e ∷ es)) then rest else e ∷ es

-- `Map.set`: an entry that is there keeps its place.
abbrev pub set_challenge :
    String → ChallengeEntry → List (String × ChallengeEntry) → List (String × ChallengeEntry)
set_challenge id entry es =
    if any (has_challenge id) es
    then modify (has_challenge id) (λ _. (id, entry)) es
    else es ++ (id, entry) ∷ []

unfoldable pub put_challenge : ℕ → String → ChallengeEntry → AuthState → AuthState
unfolding shrink
put_challenge now id entry s = record s {
  challenges = set_challenge id entry (shrink (keep (λ e. ltb now e.1.expires_at) s.challenges));
}

abbrev pub challenge_of : Option (String × ChallengeEntry) → Option ChallengeEntry
challenge_of none = none
challenge_of (some e) = some e.1

abbrev pub find_challenge : Option String → AuthState → Option ChallengeEntry
find_challenge none s = none
find_challenge (some id) s = challenge_of (find (has_challenge id) s.challenges)

abbrev pub drop_challenge : Option String → AuthState → AuthState
drop_challenge none s = s
drop_challenge (some id) s = record s {
  challenges = keep (λ e. not (has_challenge id e)) s.challenges;
}

abbrev pub usable_challenge : ℕ → ChallengeKind → Option ChallengeEntry → Result ChallengeEntry
usable_challenge now kind none =
    err (application bad_request "challenge expired — restart the passkey flow")
usable_challenge now kind (some e) =
    if not (same_kind e.kind kind) || leb e.expires_at now
    then err (application bad_request "challenge expired — restart the passkey flow")
    else ok e

-- The entry is gone whether or not it can be used.
unfoldable pub take_challenge :
    ℕ → Option String → ChallengeKind → AuthState → Result ChallengeEntry × AuthState
take_challenge now id kind s =
    (usable_challenge now kind (find_challenge (given id) s), drop_challenge (given id) s)

-- The rest of a method after a call that may throw and that writes.
abbrev pub after {ℓ} :
    {A B : Type ℓ}
    → Result B × AuthState
    → (B → AuthState → Result A × AuthState)
    → Result A × AuthState
after (ok b, s) k = k b s
after (err e, s) k = (err e, s)

module _ (ttl : ℕ) where
  abbrev pub grant_check : String → AuthAction → ChallengeEntry → Result ChallengeEntry
  grant_check token action g = do
    refuse_if (not (g.session_token == some token) || not (is_action action g.action))
        (application forbidden "Verify your passkey again for this action")
    ok g

  unfoldable pub take_authorization :
      ℕ → AuthCredentials → String → AuthAction → AuthState → Result ChallengeEntry × AuthState
  unfolding require_session take_challenge
  take_authorization now c authorization action s =
      checked (require_session ttl now c s) s (λ token.
        after (take_challenge now (some authorization) grant s)
          (λ g t. (grant_check token action g, t)))

  unfoldable pub logout_all :
      ℕ → AuthCredentials → String → AuthState → Result (Unit {0}) × AuthState
  unfolding take_authorization revoke
  logout_all now c authorization s =
      after (take_authorization now c authorization revoke_sessions s) (λ g t. (ok tt, revoke t))

  abbrev pub removed : Bool × AuthState → AuthState → Result (Unit {0}) × AuthState
  removed (true, t) s = (ok tt, revoke t)
  removed (false, t) s = (err (application not_found "Passkey not found"), s)

  unfoldable pub remove_key :
      ℕ → AuthCredentials → String → String → AuthState → Result (Unit {0}) × AuthState
  unfolding take_authorization revoke delete_credential
  remove_key now c authorization credential_id s =
      after (take_authorization now c authorization remove_passkey s) (λ g t.
        checked
          (refuse_if (g.credential_id == some credential_id)
            (application forbidden "Use a different passkey to authorize removing this one"))
          t (λ _. removed (delete_credential credential_id t) t))
