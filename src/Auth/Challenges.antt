-- ===== src/Auth/Challenges.antt =====
-- The challenges of auth-service.ts: bounded, and taken once.
use palmagent.Common.{
  ℕ, suc, ◌≤◌, ◌<◌, ◌≡◌, refl, ap, String, Bool, true, not, Option, none, some, List, [], ◌∷◌, ◌++◌,
  any, find, keep, modify, length, leb, ltb, string_eq, is_err, arith, Bool-cases, inl, inr,
  if-keeps,
}
use palmagent.Auth.Types.{ChallengeKind, ChallengeEntry, AuthState, max_challenges}
use palmagent.Auth.Service.{
  given, has_challenge, shrink, set_challenge, put_challenge, find_challenge, challenge_of,
  drop_challenge, take_challenge,
}

length-shrink : (es : List (String × ChallengeEntry)) → length (shrink es) < max_challenges
unfolding shrink
length-shrink [] = omega arith
length-shrink (e ∷ es) = elim (Bool-cases (leb max_challenges (length (e ∷ es)))) [
  | inl y ↦ rw y (length-shrink es)
  | inr n ↦ rw n (ground arith)
]

length-modify :
    (p : String × ChallengeEntry → Bool) (f : String × ChallengeEntry → String × ChallengeEntry)
    (es : List (String × ChallengeEntry))
    → length (modify p f es) ≡ length es
length-modify p f [] = refl
length-modify p f (e ∷ es) = ground (arith, length-modify p f es)

length-append_one :
    (e : String × ChallengeEntry) (es : List (String × ChallengeEntry))
    → length (es ++ e ∷ []) ≡ suc (length es)
length-append_one e [] = refl
length-append_one e (x ∷ es) = omega (arith, length-append_one e es)

length-set_challenge :
    (id : String) (entry : ChallengeEntry) (es : List (String × ChallengeEntry))
    → length (set_challenge id entry es) ≤ suc (length es)
length-set_challenge id entry es =
    if-keeps (λ r. length r ≤ suc (length es)) (any (has_challenge id) es)
      (modify (has_challenge id) (λ _. (id, entry)) es) (es ++ (id, entry) ∷ [])
      (omega (arith, length-modify (has_challenge id) (λ _. (id, entry)) es))
      (omega (arith, length-append_one (id, entry) es))

-- Whatever the state held, at most 2000 challenges are left after one is put.
pub put_challenge_within :
    (now : ℕ) (id : String) (entry : ChallengeEntry) (s : AuthState)
    → length (put_challenge now id entry s).challenges ≤ max_challenges
unfolding put_challenge
put_challenge_within now id entry s =
    let es : List (String × ChallengeEntry) =
      shrink (keep (λ e. ltb now e.1.expires_at) s.challenges) in
    omega (
      arith,
      length-set_challenge id entry es,
      length-shrink (keep (λ e. ltb now e.1.expires_at) s.challenges),
    )

find-dropped :
    (id : String) (es : List (String × ChallengeEntry))
    → find (has_challenge id) (keep (λ e. not (has_challenge id e)) es) ≡ none
find-dropped id [] = refl
find-dropped id (e ∷ es) = ground (arith, find-dropped id es)

find_challenge-dropped :
    (o : Option String) (s : AuthState) → find_challenge o (drop_challenge o s) ≡ none
find_challenge-dropped none s = refl
find_challenge-dropped (some id) s = ap challenge_of (find-dropped id s.challenges)

-- A challenge is taken at most once, as whatever kind and even when the first attempt fails: a second
-- one by the same identifier is refused and changes nothing.
pub take_challenge_once :
    (now later : ℕ) (id : Option String) (kind again : ChallengeKind) (s : AuthState)
    → (is_err (take_challenge later id again (take_challenge now id kind s).1).0 ≡ true)
      × (find_challenge (given id) (take_challenge now id kind s).1 ≡ none)
unfolding take_challenge
take_challenge_once now later id kind again s =
    (rw (find_challenge-dropped (given id) s) refl, find_challenge-dropped (given id) s)
