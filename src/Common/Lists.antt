-- ===== src/Common/Lists.antt =====
-- Sequences: tests, search, updates in place and counting, over the native numbers.
use Prim.Native.Nat.{ℕ, zero, suc, ◌+◌, ◌≤◌}
use mathlib.Core.Path.{◌≡◌, refl, ap}
use mathlib.Core.Bool.{Bool, true, false, not, ◌&&◌, ◌||◌}
use mathlib.Core.Option.{Option, none, some}
use mathlib.Core.List.{List, [], ◌∷◌, ◌++◌, map}
use native.Mathlib.Omega.{arith}
use palmagent.Common.Tests.{if◌then◌else◌, Eq, ◌==◌}

module _ {ℓ} {A : Type ℓ} where
  abbrev pub length : List A → ℕ
  length [] = 0
  length (x ∷ xs) = suc (length xs)

  abbrev pub any : (A → Bool) → List A → Bool
  any p [] = false
  any p (x ∷ xs) = p x || any p xs

  abbrev pub every : (A → Bool) → List A → Bool
  every p [] = true
  every p (x ∷ xs) = p x && every p xs

  abbrev pub find : (A → Bool) → List A → Option A
  find p [] = none
  find p (x ∷ xs) = let rest = find p xs in if p x then some x else rest

  abbrev pub keep : (A → Bool) → List A → List A
  keep p [] = []
  keep p (x ∷ xs) = let rest = keep p xs in if p x then x ∷ rest else rest

  -- Writes through the reference that `find` returned.
  abbrev pub modify : (A → Bool) → (A → A) → List A → List A
  modify p f [] = []
  modify p f (x ∷ xs) = let rest = modify p f xs in if p x then f x ∷ xs else x ∷ rest

  abbrev pub count : (A → Bool) → List A → ℕ
  count p [] = 0
  count p (x ∷ xs) = let rest = count p xs in if p x then suc rest else rest

  abbrev pub take : ℕ → List A → List A
  take zero xs = []
  take (suc n) [] = []
  take (suc n) (x ∷ xs) = x ∷ take n xs

  abbrev pub All {κ} : (A → Type κ) → List A → Type κ
  All P [] = Unit
  All P (x ∷ xs) = P x × All P xs

  pub length-keep-eq-count : (p : A → Bool) (xs : List A) → length (keep p xs) ≡ count p xs
  length-keep-eq-count p [] = refl
  length-keep-eq-count p (x ∷ xs) = ground (arith, length-keep-eq-count p xs)

  pub length-take-le : (n : ℕ) (xs : List A) → length (take n xs) ≤ n
  length-take-le zero xs = omega arith
  length-take-le (suc n) [] = omega arith
  length-take-le (suc n) (x ∷ xs) = omega (arith, length-take-le n xs)

  pub count-eq-zero : (p : A → Bool) (xs : List A) → any p xs ≡ false → count p xs ≡ 0
  count-eq-zero p [] h = refl
  count-eq-zero p (x ∷ xs) h = ground (arith, count-eq-zero p xs)

  pub count-append : (p : A → Bool) (xs ys : List A) → count p (xs ++ ys) ≡ count p xs + count p ys
  count-append p [] ys = omega arith
  count-append p (x ∷ xs) ys = ground (arith, count-append p xs ys)

  pub count-append_one :
      (p : A → Bool) (x : A) (xs : List A)
      → count p (xs ++ x ∷ []) ≡ (if p x then suc (count p xs) else count p xs)
  count-append_one p x [] = refl
  count-append_one p x (y ∷ ys) = ground (arith, count-append_one p x ys)

  pub any-append : (p : A → Bool) (xs ys : List A) → any p (xs ++ ys) ≡ (any p xs || any p ys)
  any-append p [] ys = refl
  any-append p (x ∷ xs) ys = ground (arith, any-append p xs ys)

  pub count-modify-le :
      (p q : A → Bool) (f : A → A) (xs : List A) → count p (modify q f xs) ≤ count p xs + 1
  count-modify-le p q f [] = omega arith
  count-modify-le p q f (x ∷ xs) = ground (arith, count-modify-le p q f xs)

  -- An update that does not turn the test on does not raise the count.
  pub count-modify_off :
      (p q : A → Bool) (f : A → A) (xs : List A)
      → ((x : A) → p x ≡ false → p (f x) ≡ false)
      → count p (modify q f xs) ≤ count p xs
  count-modify_off p q f [] h = omega arith
  count-modify_off p q f (x ∷ xs) h = ground (arith, count-modify_off p q f xs h, h x)

  pub count-map_off :
      (p : A → Bool) (f : A → A) (xs : List A)
      → ((x : A) → p x ≡ false → p (f x) ≡ false)
      → count p (map f xs) ≤ count p xs
  count-map_off p f [] h = omega arith
  count-map_off p f (x ∷ xs) h = ground (arith, count-map_off p f xs h, h x)

  pub count-map_never :
      (p : A → Bool) (f : A → A) (xs : List A)
      → ((x : A) → p (f x) ≡ false)
      → count p (map f xs) ≡ 0
  count-map_never p f [] h = refl
  count-map_never p f (x ∷ xs) h = ground (arith, count-map_never p f xs h, h x)

  pub All-map {κ} :
      (P : A → Type κ) (f : A → A) (xs : List A)
      → ((x : A) → P x → P (f x))
      → All P xs
      → All P (map f xs)
  All-map P f [] h a = tt
  All-map P f (x ∷ xs) h (p, a) = (h x p, All-map P f xs h a)

  -- The same, where only the element that is found matters.
  pub count-modify_found :
      (p q : A → Bool) (f : A → A) (xs : List A) (m : A)
      → find q xs ≡ some m
      → (p m ≡ false → p (f m) ≡ false)
      → count p (modify q f xs) ≤ count p xs
  count-modify_found p q f [] m e h = omega arith
  count-modify_found p q f (x ∷ xs) m e h = ground (arith, count-modify_found p q f xs m)

  pub count-keep-le : (p q : A → Bool) (xs : List A) → count p (keep q xs) ≤ count p xs
  count-keep-le p q [] = omega arith
  count-keep-le p q (x ∷ xs) = ground (arith, count-keep-le p q xs)

  -- What a search finds after an update in place that keeps the search.
  pub find-modify :
      (q : A → Bool) (f : A → A) (xs : List A) (m : A)
      → find q xs ≡ some m
      → q (f m) ≡ true
      → find q (modify q f xs) ≡ some (f m)
  find-modify q f [] m e h = cc
  find-modify q f (x ∷ xs) m e h = ground (arith, find-modify q f xs m)

  pub find_sound : (p : A → Bool) (xs : List A) {x : A} → find p xs ≡ some x → p x ≡ true
  find_sound p [] h = cc
  find_sound p (y ∷ xs) {x} h = ground (arith, find_sound p xs {x = x})

-- Whether `a` occurs, and lists without repetition, by tests.
module _ {ℓ} {A : Type ℓ} ⦃e : Eq A⦄ where
  abbrev pub includes : List A → A → Bool
  includes [] a = false
  includes (x ∷ xs) a = (x == a) || includes xs a

  abbrev pub distinct : List A → Bool
  distinct [] = true
  distinct (x ∷ xs) = not (includes xs x) && distinct xs

  pub includes-keep :
      (p : A → Bool) (xs : List A) (a : A) → includes (keep p xs) a ≡ true → includes xs a ≡ true
  includes-keep p [] a h = h
  includes-keep p (x ∷ xs) a h = ground (arith, includes-keep p xs a)

  pub includes-append_one :
      (xs : List A) (x a : A)
      → includes (xs ++ x ∷ []) a ≡ true
      → (includes xs a || (x == a)) ≡ true
  includes-append_one [] x a h = ground arith
  includes-append_one (y ∷ xs) x a h = ground (arith, includes-append_one xs x a)

pub if-keeps {ℓ κ} :
    {A : Type ℓ} (P : A → Type κ) (b : Bool) (x y : A) → P x → P y → P (if b then x else y)
if-keeps P true x y h g = h
if-keeps P false x y h g = g

-- A property of a branch that may use the outcome of the test.
pub if-cases {ℓ κ} :
    {A : Type ℓ} (P : A → Type κ) (b : Bool) (x y : A)
    → (b ≡ true → P x)
    → (b ≡ false → P y)
    → P (if b then x else y)
if-cases P true x y h g = h refl
if-cases P false x y h g = g refl

pub map-append {ℓ κ} :
    {A : Type ℓ} {B : Type κ} (f : A → B) (xs ys : List A) → map f (xs ++ ys) ≡ map f xs ++ map f ys
map-append f [] ys = refl
map-append f (x ∷ xs) ys = ap (◌∷◌ (f x)) (map-append f xs ys)

pub find-append-new {ℓ} :
    {A : Type ℓ} (q : A → Bool) (xs : List A) (x : A)
    → any q xs ≡ false
    → q x ≡ true
    → find q (xs ++ x ∷ []) ≡ some x
find-append-new q [] x h t = ground arith
find-append-new q (y ∷ xs) x h t = ground (arith, find-append-new q xs x)

pub or_right : (a b : Bool) → b ≡ true → (a || b) ≡ true
or_right a b = ground arith
