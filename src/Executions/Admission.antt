-- ===== src/Executions/Admission.antt =====
-- Admission of queued executions: `admit` of execution-store.ts.
use palmagent.Common.{
  ℕ, zero, suc, ◌+◌, ◌-◌, ◌≤◌, ◌≡◌, refl, ◌⊎◌, true, false, String, Option, none, some, or_else,
  List, [], ◌∷◌, ◌++◌, map, any, arith, count, keep, take, length, ap, sym, inl, inr, Bool-cases,
}
use palmagent.Executions.Types.{ExecutionRecord}
use palmagent.Executions.Store.{ExecutionStore, admit, start_first, slots, busy, waiting}

-- The capacity in force, by the saved capacity and the given limit.
pub data InForce : Option ℕ → ℕ → ℕ → Type 0 where
  saved : (capacity limit : ℕ) → InForce (some capacity) limit capacity
  given : (limit : ℕ) → InForce none limit limit

-- The queue, oldest first.
abbrev pub queue : List ExecutionRecord → List String
queue rs = map (λ r. r.id) (keep waiting rs)

waiting-busy : (r : ExecutionRecord) → waiting r ≡ true → busy r ≡ false
waiting-busy r h = ground arith

-- What `n` free slots do to the queue and to the number of starting and running executions.
pub record Starts (n : ℕ) (rs : List ExecutionRecord) (ids : List String)
    (after : List ExecutionRecord) : Type 0 where
  pub in_order : queue rs ≡ ids ++ queue after
  pub counted : count busy after ≡ count busy rs + length ids
  pub fits : length ids ≤ n
  pub full : (length ids ≡ n) ⊎ (queue after ≡ [])

abbrev first_ids : ℕ → List ExecutionRecord → List String
first_ids n rs = map (λ r. r.id) (take n (keep waiting rs))

or-map : {A B C : Type 0} → (A → B) → A ⊎ C → B ⊎ C
or-map f (inl a) = inl (f a)
or-map f (inr c) = inr c

start_first-Starts :
    (n : ℕ) (rs : List ExecutionRecord) → Starts n rs (first_ids n rs) (start_first n rs)
start_first-Starts zero [] = record {
  in_order = refl;
  counted = refl;
  fits = omega arith;
  full = inl refl;
}
start_first-Starts (suc n) [] = record {
  in_order = refl;
  counted = refl;
  fits = omega arith;
  full = inr refl;
}
start_first-Starts zero (r ∷ rs) = record {
  in_order = refl;
  counted = omega arith;
  fits = omega arith;
  full = inl refl;
}
start_first-Starts (suc n) (r ∷ rs) = elim (Bool-cases (waiting r)) [
  | inl y ↦
      let h = start_first-Starts n rs in
      rw y (record {
        in_order = rw y (ap (λ q. r.id ∷ q) h.in_order);
        counted = ground (arith, h.counted, waiting-busy r y);
        fits = omega (arith, h.fits);
        full = or-map (ap suc) h.full;
      })
  | inr m ↦
      let h = start_first-Starts (suc n) rs in
      rw m (record {
        in_order = rw m h.in_order;
        counted = ground (arith, h.counted);
        fits = h.fits;
        full = rw m h.full;
      })
]

-- What an admission with `capacity` does to the queue and to the starting and running executions.
pub record IsAdmission (capacity : ℕ) (before : List ExecutionRecord) (ids : List String)
    (after : List ExecutionRecord) : Type 0 where
  pub in_order : queue before ≡ ids ++ queue after
  pub counted : count busy after ≡ count busy before + length ids
  pub fits : (count busy after ≤ capacity) ⊎ (ids ≡ [])
  pub full : (capacity ≤ count busy after) ⊎ (queue after ≡ [])

of-Starts :
    (capacity : ℕ) (rs : List ExecutionRecord) (ids : List String) (after : List ExecutionRecord)
    → Starts (capacity - count busy rs) rs ids after
    → IsAdmission capacity rs ids after
of-Starts capacity rs ids after h = record {
  in_order = h.in_order;
  counted = h.counted;
  fits = go ids h.counted h.fits;
  full = or-map (λ e. omega (arith, e, h.counted)) h.full;
}
  where
    go :
        (ids : List String)
        → count busy after ≡ count busy rs + length ids
        → length ids ≤ capacity - count busy rs
        → (count busy after ≤ capacity) ⊎ (ids ≡ [])
    go [] e l = inr refl
    go (x ∷ xs) e l = inl (omega (arith, e, l))

or_else-InForce :
    {o : Option ℕ} {limit capacity : ℕ} → InForce o limit capacity → or_else o limit ≡ capacity
or_else-InForce (saved capacity limit) = refl
or_else-InForce (given limit) = refl

queue-none : (rs : List ExecutionRecord) → any waiting rs ≡ false → queue rs ≡ []
queue-none [] h = refl
queue-none (r ∷ rs) h = ground (arith, queue-none rs)

-- With the saved capacity in force, or the given limit where none is saved, an admission starts the
-- oldest queued executions and leaves the others in their order: the starting and running ones grow
-- by those that it returns, do not come to more than the capacity where it returns any, and are fewer
-- than the capacity afterwards only where nothing is queued any more.
pub admit_fills :
    (limit capacity : ℕ) (s : ExecutionStore)
    → InForce s.capacity limit capacity
    → IsAdmission capacity s.executions (admit limit s).0 (admit limit s).1.executions
unfolding admit
admit_fills limit capacity s f = elim (Bool-cases (any waiting s.executions)) [
  | inl y ↦ rw y (
      of-Starts capacity s.executions _ _
        (rw (sym (or_else-InForce f)) (start_first-Starts (slots limit s) s.executions)))
  | inr n ↦ rw n (record {
    in_order = refl;
    counted = omega arith;
    fits = inr refl;
    full = inr (queue-none s.executions n);
  })
]
