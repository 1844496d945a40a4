-- ===== src/Conversation/Trace/Places.antt =====
-- Lists of operations of which every running one is active: packages/shared/src/conversation-trace.ts.
use mathlib.Core.Path.{subst}
use palmagent.Common.{
  or_right, ℕ, zero, suc, ◌+◌, ◌≡◌, refl, Bool, true, false, ◌&&◌, not, List, [], ◌∷◌, ◌++◌, ◌==◌,
  nat_eq, includes, length, every, if◌then◌else◌, if-cases, arith,
}
use palmagent.Conversation.Trace.Operations.{
  TraceOperation, TraceState, running, completed, error_state, interrupted, unknown, is_running,
  Trace, CallKey, settle_state, settle, settle_active, update_at,
}

-- Every running operation, of those from the place `n` on, is active.
abbrev pub Tracked : List ℕ → ℕ → List TraceOperation → Type 0
Tracked active n [] = Unit
Tracked active n (op ∷ ops) =
    (is_running op.state ≡ true → includes active n ≡ true) × Tracked active (suc n) ops

abbrev pub CallsIn : List ℕ → List (CallKey × ℕ) → Type 0
CallsIn active [] = Unit
CallsIn active ((k, n) ∷ calls) = (includes active n ≡ true) × CallsIn active calls

abbrev pub IsTracked : Trace → Type 0
IsTracked t = Tracked t.active 0 t.operations × CallsIn t.active t.calls

pub at_end : (n : ℕ) → n + 0 ≡ n
at_end n = omega arith

pub further : (n m : ℕ) → n + suc m ≡ suc n + m
further n m = omega arith

pub settled_state :
    (cut : Bool) (state : TraceState) → not (is_running (settle_state cut state)) ≡ true
settled_state true running = refl
settled_state false running = refl
settled_state cut completed = refl
settled_state cut error_state = refl
settled_state cut interrupted = refl
settled_state cut unknown = refl

pub idle_settled : (r i : Bool) → (r ≡ true → i ≡ true) → i ≡ false → not r ≡ true
idle_settled true i h e = let no : i ≡ true = h refl in cc
idle_settled false i h e = refl

pub settled_not : (r : Bool) → not r ≡ true → r ≡ true → false ≡ true
settled_not true s h = s
settled_not false s h = h

pub parts : (a b : Bool) → (a && b) ≡ true → (a ≡ true) × (b ≡ true)
parts true b h = (refl, h)
parts false b h = let no : ⊥ = cc in elim no [ ]

pub Tracked-cons :
    (m : ℕ) (active : List ℕ) (n : ℕ) (ops : List TraceOperation)
    → Tracked active n ops
    → Tracked (m ∷ active) n ops
Tracked-cons m active n [] h = tt
Tracked-cons m active n (op ∷ ops) (p, h) =
    (λ r. or_right (m == n) (includes active n) (p r), Tracked-cons m active (suc n) ops h)

pub CallsIn-cons :
    (m : ℕ) (active : List ℕ) (calls : List (CallKey × ℕ))
    → CallsIn active calls
    → CallsIn (m ∷ active) calls
CallsIn-cons m active [] h = tt
CallsIn-cons m active ((k, n) ∷ calls) (p, h) =
    (or_right (m == n) (includes active n) p, CallsIn-cons m active calls h)

pub Tracked-append_one :
    (active : List ℕ) (n : ℕ) (ops : List TraceOperation) (op : TraceOperation)
    → Tracked active n ops
    → (is_running op.state ≡ true → includes active (n + length ops) ≡ true)
    → Tracked active n (ops ++ op ∷ [])
Tracked-append_one active n [] op h g =
    (λ r. subst (λ k. includes active k ≡ true) (at_end n) (g r), tt)
Tracked-append_one active n (x ∷ ops) op (p, h) g = (
  p,
  Tracked-append_one active (suc n) ops op h
      (λ r. subst (λ k. includes active k ≡ true) (further n (length ops)) (g r)),
)

pub Tracked-update_at :
    (active : List ℕ) (n i : ℕ) (f : TraceOperation → TraceOperation) (ops : List TraceOperation)
    → Tracked active n ops
    → includes active (n + i) ≡ true
    → Tracked active n (update_at i f ops)
Tracked-update_at active n i f [] h g = tt
Tracked-update_at active n zero f (op ∷ ops) (p, h) g =
    (λ r. subst (λ k. includes active k ≡ true) (at_end n) g, h)
Tracked-update_at active n (suc i) f (op ∷ ops) (p, h) g = (
  p,
  Tracked-update_at active (suc n) i f ops h
      (subst (λ k. includes active k ≡ true) (further n i) g),
)

abbrev pub is_settled : TraceOperation → Bool
is_settled op = not (is_running op.state)

pub settle-settled : (cut : Bool) (op : TraceOperation) → is_settled (settle cut op) ≡ true
settle-settled cut op = settled_state cut op.state

pub both : (a b : Bool) → a ≡ true → b ≡ true → (a && b) ≡ true
both a b = ground arith

pub settle_active-settled :
    (cut : Bool) (active : List ℕ) (n : ℕ) (ops : List TraceOperation)
    → Tracked active n ops
    → every is_settled (settle_active cut active n ops) ≡ true
settle_active-settled cut active n [] h = refl
settle_active-settled cut active n (op ∷ ops) (p, h) =
    both (is_settled (if includes active n then settle cut op else op))
      (every is_settled (settle_active cut active (suc n) ops))
      (if-cases (λ (o : TraceOperation). is_settled o ≡ true) (includes active n) (settle cut op) op
        (λ _. settle-settled cut op)
        (λ idle. idle_settled (is_running op.state) (includes active n) p idle))
      (settle_active-settled cut active (suc n) ops h)

pub settled-Tracked :
    (n : ℕ) (ops : List TraceOperation) → every is_settled ops ≡ true → Tracked [] n ops
settled-Tracked n [] h = tt
settled-Tracked n (op ∷ ops) h =
    let (s, r) = parts (is_settled op) (every is_settled ops) h in
    (λ run. settled_not (is_running op.state) s run, settled-Tracked (suc n) ops r)
