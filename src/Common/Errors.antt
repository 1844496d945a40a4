-- ===== src/Common/Errors.antt =====
-- Failures: apps/server/src/kernel/errors.ts, and exceptions of any other class.
use Prim.Native.String.{String}
use mathlib.Core.Bool.{Bool, true, false}
use mathlib.Core.Path.{◌≡◌, refl}
use palmagent.Common.Tests.{if◌then◌else◌}

pub data ErrorCode : Type 0 where
  bad_request unauthorized forbidden not_found conflict gone : ErrorCode
  too_many_requests payload_too_large unsupported_media_type : ErrorCode
  service_unavailable update_in_progress insufficient_storage : ErrorCode

-- `unexpected` is an exception that is no `ApplicationError`.
pub data Failure : Type 0 where
  application : ErrorCode → String → Failure
  unexpected : String → Failure

pub data Result {ℓ} (A : Type ℓ) : Type ℓ where
  ok : A → Result A
  err : Failure → Result A

infixl 5 ◌>>=◌ ◌>>◌
abbrev pub ◌>>=◌ {ℓ κ} : {A : Type ℓ} {B : Type κ} → Result A → (A → Result B) → Result B
err e >>= k = err e
ok a >>= k = k a

abbrev pub ◌>>◌ {ℓ} : {B : Type ℓ} → Result (Unit {0}) → Result B → Result B
m >> k = m >>= λ _. k

-- `if (b) throw e;`
abbrev pub refuse_if : Bool → Failure → Result (Unit {0})
refuse_if b e = if b then err e else ok tt

-- Goes on with the value of a check that may throw and writes nothing.
abbrev pub checked {ℓ} : {A B S : Type ℓ} → Result B → S → (B → Result A × S) → Result A × S
checked (ok b) s k = k b
checked (err e) s k = (err e, s)

-- A value read after an operation; an exception leaves what was written before it.
abbrev pub answer {ℓ} : {A B S : Type ℓ} → (S → A) → Result B × S → Result A × S
answer f (ok _, s) = (ok (f s), s)
answer f (err e, s) = (err e, s)

module _ {ℓ κ} {A B S : Type ℓ} (P : S → Type κ) where
  pub checked-keeps :
      (c : Result B) (s : S) (k : B → Result A × S)
      → P s
      → ((b : B) → c ≡ ok b → P (k b).1)
      → P (checked c s k).1
  checked-keeps (ok b) s k h step = step b refl
  checked-keeps (err e) s k h step = h

  pub answer-keeps : (f : S → A) (r : Result B × S) → P r.1 → P (answer f r).1
  answer-keeps f (ok b, s) h = h
  answer-keeps f (err e, s) h = h

pub refuse_if-ok : (b : Bool) (e : Failure) {u : Unit {0}} → refuse_if b e ≡ ok u → b ≡ false
refuse_if-ok true e h = cc
refuse_if-ok false e h = refl

-- The parts of a check that passed.
pub >>-ok {ℓ} :
    {B : Type ℓ} (m : Result (Unit {0})) (k : Result B) {b : B}
    → (m >> k) ≡ ok b
    → (m ≡ ok tt) × (k ≡ ok b)
>>-ok (ok x) k h = (refl, h)
>>-ok (err e) k h = cc

abbrev pub is_err {ℓ} : {A : Type ℓ} → Result A → Bool
is_err (ok a) = false
is_err (err e) = true

-- The call throws and leaves the state as it was.
abbrev pub Refuses : {A S : Type 0} → Result A × S → S → Type 0
Refuses r s = (is_err r.0 ≡ true) × (r.1 ≡ s)

pub checked-Refuses :
    {A B S : Type 0} (c : Result B) (s : S) (k : B → Result A × S)
    → is_err c ≡ true
    → Refuses (checked c s k) s
checked-Refuses (ok b) s k h = cc
checked-Refuses (err e) s k h = (refl, refl)

-- A transaction that throws leaves the store as it was.
abbrev pub committed {ℓ} : {A S : Type ℓ} → Result (A × S) → S → S
committed (ok q) s = q.1
committed (err e) s = s

-- What a transaction that does not throw leaves.
abbrev pub Leaves {ℓ κ} : {A S : Type ℓ} → (S → Type κ) → Result (A × S) → Type κ
Leaves P (ok q) = P q.1
Leaves P (err e) = Unit

module _ {ℓ κ} {A B S : Type ℓ} (P : S → Type κ) where
  pub check-Leaves :
      (c : Result B) (k : B → Result (A × S))
      → ((b : B) → c ≡ ok b → Leaves P (k b))
      → Leaves P (c >>= k)
  check-Leaves (ok b) k step = step b refl
  check-Leaves (err e) k step = tt

  pub step-Leaves :
      (m : Result (B × S)) (k : B × S → Result (A × S))
      → Leaves P m
      → ((q : B × S) → P q.1 → Leaves P (k q))
      → Leaves P (m >>= k)
  step-Leaves (ok q) k h step = step q h
  step-Leaves (err e) k h step = tt

pub refuse-Leaves {ℓ κ} :
    {A S : Type ℓ} (P : S → Type κ) (b : Bool) (e : Failure) (q : A × S)
    → P q.1
    → Leaves P (refuse_if b e >> ok q)
refuse-Leaves P true e q h = tt
refuse-Leaves P false e q h = h

pub committed-Leaves {ℓ κ} :
    {A S : Type ℓ} (P : S → Type κ) (r : Result (A × S)) (s : S)
    → P s
    → Leaves P r
    → P (committed r s)
committed-Leaves P (ok q) s h l = l
committed-Leaves P (err e) s h l = h

-- The steps of a computation that did not throw.
pub bind-ok {ℓ κ} :
    {A : Type ℓ} {B : Type κ} (m : Result A) (k : A → Result B) {b : B}
    → (m >>= k) ≡ ok b
    → (a : A) × (m ≡ ok a) × (k a ≡ ok b)
bind-ok (ok a) k h = (a, refl, h)
bind-ok (err e) k h = cc

pub checked-ok {ℓ} :
    {A B S : Type ℓ} (c : Result B) (s : S) (k : B → Result A × S) {a : A}
    → (checked c s k).0 ≡ ok a
    → (b : B) × (c ≡ ok b) × (checked c s k ≡ k b)
checked-ok (ok b) s k h = (b, refl, refl)
checked-ok (err e) s k h = cc
