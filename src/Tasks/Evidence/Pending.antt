-- ===== src/Tasks/Evidence/Pending.antt =====
-- The number of calls that wait for their result: the tracker of
-- apps/server/src/modules/tasks/adapters/outbound/pr-evidence.ts.
use palmagent.Common.{
  suc, ◌≤◌, Text, Bool, true, false, not, Option, none, some, List, [], ◌∷◌, ◌++◌, ◌≡◌, refl,
  length, arith, keep, ◌==◌, nat_eq, list_eq, option_eq,
}
use palmagent.Events.{Json}
use palmagent.Tasks.Evidence.{PrEvidence, without, called, settle, max_pending, add_pending}

pub length-keep-le {ℓ} : {A : Type ℓ} (p : A → Bool) (xs : List A) → length (keep p xs) ≤ length xs
length-keep-le p [] = omega arith
length-keep-le p (x ∷ xs) = ground (arith, length-keep-le p xs)

pub length-append_one {ℓ} :
    {A : Type ℓ} (xs : List A) (x : A) → length (xs ++ x ∷ []) ≡ suc (length xs)
length-append_one [] x = refl
length-append_one (y ∷ xs) x = omega (arith, length-append_one xs x)

pub add_pending-length : (id : Text) (ids : List Text) → length (add_pending id ids) ≤ max_pending
add_pending-length id ids = ground (arith, length-append_one ids id)

abbrev pub Bounded : PrEvidence → Type 0
Bounded e = length e.pending ≤ max_pending

pub called-Bounded :
    (id : Option Text) (q : Bool) (p : Json) (e : PrEvidence)
    → Bounded e
    → Bounded (called id q p e)
called-Bounded none q p e h = h
called-Bounded (some id) true p e h = add_pending-length id (without id e.pending)
called-Bounded (some id) false p e h = omega (arith, length-keep-le (λ i. not (i == id)) e.pending)

pub settle-Bounded : (id : Option Text) (e : PrEvidence) → Bounded e → Bounded (settle id e)
settle-Bounded none e h = h
settle-Bounded (some id) e h = omega (arith, length-keep-le (λ i. not (i == id)) e.pending)
