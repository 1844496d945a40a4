-- ===== src/Terminals/Chunks.antt =====
-- Input for a terminal in frames: `terminalInputChunks` of packages/shared/src/terminals.ts. A text is
-- its UTF-16 code units; a round takes at least one of them, so the length of the text is fuel enough.
use Prim.Native.Nat.{min}
use palmagent.Common.{
  ℕ, zero, suc, ◌+◌, ◌-◌, ◌≤◌, ◌<◌, ◌≡◌, refl, ap, ◌∙◌, Text, Bool, true, false, ◌&&◌, List, [],
  ◌∷◌, ◌++◌, length, take, drop, take-append-drop, length-take_eq, All, ltb, leb, arith,
  if◌then◌else◌,
}

abbrev pub input_chunk_length : ℕ
input_chunk_length = 16384

-- `input.charCodeAt(n)`, where it is in range
abbrev pub unit_at : ℕ → Text → ℕ
unit_at n [] = 0
unit_at zero (c ∷ s) = c
unit_at (suc n) (c ∷ s) = unit_at n s

abbrev pub is_high_surrogate : ℕ → Bool
is_high_surrogate c = leb 55296 c && leb c 56319

-- A pair is not split.
unfoldable pub chunk_length : Text → ℕ
chunk_length input =
    let n = min (length input) input_chunk_length in
    if ltb n (length input) && is_high_surrogate (unit_at (n - 1) input) then n - 1 else n

unfoldable pub terminal_input_chunks : ℕ → Text → List Text
unfolding chunk_length
terminal_input_chunks fuel [] = []
terminal_input_chunks zero (c ∷ s) = []
terminal_input_chunks (suc fuel) (c ∷ s) =
    let n = chunk_length (c ∷ s) in take n (c ∷ s) ∷ terminal_input_chunks fuel (drop n (c ∷ s))

abbrev pub joined : List Text → Text
joined [] = []
joined (c ∷ cs) = c ++ joined cs

abbrev pub Fits : Text → Type 0
Fits chunk = (1 ≤ length chunk) × (length chunk ≤ input_chunk_length)

chunk_bounds :
    (cut pair : Bool) (m : ℕ)
    → cut ≡ ltb (min (suc m) input_chunk_length) (suc m)
    → (1 ≤ (
        if cut && pair then min (suc m) input_chunk_length - 1 else min (suc m) input_chunk_length))
      × ((if cut && pair
            then min (suc m) input_chunk_length - 1
            else min (suc m) input_chunk_length)
          ≤ input_chunk_length)
      × ((if cut && pair
            then min (suc m) input_chunk_length - 1
            else min (suc m) input_chunk_length)
          ≤ suc m)
chunk_bounds true true m e =
    let l : 16384 < suc m = ground arith in (omega arith, omega arith, omega arith)
chunk_bounds true false m e = (omega arith, omega arith, omega arith)
chunk_bounds false pair m e = (omega arith, omega arith, omega arith)

chunk_length-bounds :
    (c : ℕ) (s : Text)
    → (1 ≤ chunk_length (c ∷ s))
      × (chunk_length (c ∷ s) ≤ input_chunk_length)
      × (chunk_length (c ∷ s) ≤ suc (length s))
unfolding chunk_length
chunk_length-bounds c s =
    let n = min (suc (length s)) input_chunk_length in
    chunk_bounds (ltb n (suc (length s))) (is_high_surrogate (unit_at (n - 1) (c ∷ s))) (length s)
      refl

length-drop : (n : ℕ) (xs : Text) → n ≤ length xs → length (drop n xs) + n ≡ length xs
length-drop zero xs h = omega arith
length-drop (suc n) [] h = omega arith
length-drop (suc n) (x ∷ xs) h = omega (arith, length-drop n xs (omega arith))

-- With the length of the text as fuel, the chunks together are the text, and each holds between 1 and
-- 16384 code units.
pub joined-terminal_input_chunks :
    (fuel : ℕ) (input : Text)
    → length input ≤ fuel
    → (joined (terminal_input_chunks fuel input) ≡ input)
      × All Fits (terminal_input_chunks fuel input)
unfolding terminal_input_chunks
joined-terminal_input_chunks fuel [] h = (refl, tt)
joined-terminal_input_chunks zero (c ∷ s) h = let no : ⊥ = omega arith in elim no [ ]
joined-terminal_input_chunks (suc fuel) (c ∷ s) h =
    let n = chunk_length (c ∷ s) in
    let (one, most, whole) = chunk_length-bounds c s in
    let left = length-drop n (c ∷ s) whole in
    let (all, fit) = joined-terminal_input_chunks fuel (drop n (c ∷ s)) (omega arith) in
    let size = length-take_eq n (c ∷ s) whole in
    (
      ap (λ (rest : Text). take n (c ∷ s) ++ rest) all ∙ take-append-drop n (c ∷ s),
      ((omega arith, omega arith), fit),
    )
