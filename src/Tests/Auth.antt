-- ===== src/Tests/Auth.antt =====
-- A session with a grant to remove another passkey, and the theorems on auth-service.ts applied.
use palmagent.Common.{◌≤◌, ◌≡◌, refl, String, true, none, some, [], ◌∷◌, length, is_err, Refuses}
use palmagent.Auth.Types.{
  StoredCredential, ChallengeEntry, reg, auth, grant, remove_passkey, AuthCredentials, AuthState,
  max_challenges,
}
use palmagent.Auth.Service.{given, put_challenge, take_challenge, find_challenge, remove_key}
use palmagent.Auth.Ceremonies.{Verified, finish_registration, register}
use palmagent.Auth.SignIn.{finish_authentication, sign_in}
use palmagent.Auth.Challenges.{put_challenge_within, take_challenge_once}
use palmagent.Auth.Revocation.{IsRemoval, remove_key_revokes}
use palmagent.Auth.Calls.{here, passkey}
use palmagent.Auth.Generations.Interrupted.{revoked, revoked_registration, revoked_login}

abbrev passkey_of : String → StoredCredential
passkey_of id = record {
  credential_id = id;
  public_key = "key";
  counter = 3;
  transports = none;
  label = none;
  created_at = 1;
  last_used_at = none;
}

abbrev granted : ChallengeEntry
granted = record {
  challenge = "c";
  expires_at = 900;
  kind = grant;
  enroll_token = none;
  session_token = some "session";
  action = some remove_passkey;
  credential_id = some "phone";
}

abbrev state : AuthState
state = record {
  credentials = passkey_of "phone" ∷ passkey_of "laptop" ∷ [];
  sessions = record { token = "session"; created_at = 100; expires_at = 1000; label = none } ∷ [];
  enroll_tokens = [];
  challenges = ("authorization", granted) ∷ [];
  generation = 4;
}

abbrev caller : AuthCredentials
caller = record { session_token = some "session"; challenge_id = some "authorization" }

remove_key_revokes_example :
    IsRemoval 900 500 caller "authorization" "laptop" state
      (remove_key 900 500 caller "authorization" "laptop" state).1
unfolding remove_key
remove_key_revokes_example = remove_key_revokes 900 500 caller "authorization" "laptop" state refl

abbrev verified : Verified
verified = record { credential_id = "tablet"; public_key = "key"; counter = 0; transports = none }

-- The session enrolls a tablet while the laptop's passkey is removed, and another login waits.
abbrev enrolling : ChallengeEntry
enrolling = record granted { kind = reg; action = none; credential_id = none }

abbrev signing_in : ChallengeEntry
signing_in = record enrolling { kind = auth; session_token = none }

abbrev busy_state : AuthState
busy_state = record state {
  challenges = ("authorization", granted) ∷ ("enroll", enrolling) ∷ ("login", signing_in) ∷ [];
}

abbrev enroller : AuthCredentials
enroller = record { session_token = some "session"; challenge_id = some "enroll" }

abbrev visitor : AuthCredentials
visitor = record { session_token = none; challenge_id = some "login" }

abbrev enrolled : AuthState
enrolled = (finish_registration 900 500 enroller busy_state).1

abbrev answered : AuthState
answered = (finish_authentication 900 500 visitor "phone" busy_state).1

abbrev after_removal : AuthState → AuthState
after_removal s = (remove_key 900 501 caller "authorization" "laptop" s).1

revoked_registration_example :
    Refuses
      (register 900 502 enroller enrolling 4
        (some verified)
        none
        none
        "token"
        (after_removal enrolled))
      (after_removal enrolled)
unfolding finish_registration remove_key
revoked_registration_example =
    revoked_registration 900 500 502 enroller enrolling 4 (some verified) none none "token"
      busy_state (after_removal enrolled) refl
      (revoked here (passkey 501 caller "authorization" "laptop" enrolled refl) here)

revoked_login_example :
    Refuses
      (sign_in 900 502 visitor "phone"
        (passkey_of "phone")
        4
        (some 4)
        "token"
        (after_removal answered))
      (after_removal answered)
unfolding finish_authentication remove_key
revoked_login_example =
    revoked_login 900 500 502 visitor "phone" (passkey_of "phone") 4 (some 4) "token" busy_state
      (after_removal answered) refl
      (revoked here (passkey 501 caller "authorization" "laptop" answered refl) here)

put_challenge_within_example :
    length (put_challenge 500 "new" granted state).challenges ≤ max_challenges
put_challenge_within_example = put_challenge_within 500 "new" granted state

take_challenge_once_example :
    (is_err
        (take_challenge 600
          (some "authorization")
          grant
          (take_challenge 500 (some "authorization") auth state).1).0
      ≡ true)
    × (find_challenge
          (given (some "authorization"))
          (take_challenge 500 (some "authorization") auth state).1
        ≡ none)
take_challenge_once_example = take_challenge_once 500 600 (some "authorization") auth grant state
