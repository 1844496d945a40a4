-- ===== src/Tasks/Evidence/Reader.antt =====
-- The shell reader of apps/server/src/modules/tasks/adapters/outbound/pr-evidence.ts ends.
use palmagent.Common.{
  ℕ, zero, suc, ◌≤◌, Text, Bool, Option, none, some, List, [], ◌∷◌, ◌++◌, ◌≡◌, refl, length, arith,
  if◌then◌else◌, if-keeps, or_else, ◌==◌, nat_eq,
}
use palmagent.Tasks.Evidence.Shell.{
  Reading, Round, fail, go, round, read, repeat, start, commands_of, bare, in_quote, quoted_escape,
  escaped, end_line, document, less, ampersand, skip_comment, seek, seek_in, skip_documents,
  and_then, resume, finish, drop_documents, newline, ends_document,
}
use palmagent.Tasks.Evidence.Command.{commands}

abbrev Short : ℕ → Round → Type 0
Short n fail = Unit
Short n (go q r s) = length s ≤ n

abbrev Rest : ℕ → Option (Option Text) → Type 0
Rest n none = Unit
Rest n (some none) = Unit
Rest n (some (some s)) = length s ≤ n

skip_comment-length : (s : Text) → length (skip_comment s) ≤ length s
skip_comment-length [] = omega arith
skip_comment-length (c ∷ s) = ground (arith, skip_comment-length s)

Rest-weaken : (n m : ℕ) (o : Option (Option Text)) → Rest n o → n ≤ m → Rest m o
Rest-weaken n m none h l = tt
Rest-weaken n m (some none) h l = tt
Rest-weaken n m (some (some s)) h l = omega arith

seek-Rest : (doc : Text × Bool) (line s : Text) → Rest (length s) (seek doc line s)
seek-Rest doc line [] = if-keeps (Rest 0) (ends_document doc line) (some none) none tt tt
seek-Rest doc line (c ∷ s) =
    if-keeps (Rest (suc (length s))) (c == newline)
      (if ends_document doc line then some (some s) else seek doc [] s)
      (seek doc (line ++ c ∷ []) s)
      (if-keeps (Rest (suc (length s))) (ends_document doc line) (some (some s)) (seek doc [] s)
        (omega arith)
        (Rest-weaken (length s) (suc (length s)) (seek doc [] s) (seek-Rest doc [] s)
          (omega arith)))
      (Rest-weaken (length s) (suc (length s)) (seek doc (line ++ c ∷ []) s)
        (seek-Rest doc (line ++ c ∷ []) s) (omega arith))

seek_in-Rest :
    (n : ℕ) (doc : Text × Bool) (o : Option Text) → Rest n (some o) → Rest n (seek_in doc o)
seek_in-Rest n doc none h = tt
seek_in-Rest n doc (some s) h = Rest-weaken (length s) n (seek doc [] s) (seek-Rest doc [] s) h

and_then-Rest :
    (n : ℕ) (m : Option (Option Text)) (k : Option Text → Option (Option Text))
    → Rest n m
    → ((o : Option Text) → Rest n (some o) → Rest n (k o))
    → Rest n (and_then m k)
and_then-Rest n none k h step = tt
and_then-Rest n (some o) k h step = step o h

skip_documents-Rest :
    (n : ℕ) (docs : List (Text × Bool)) (o : Option Text)
    → Rest n (some o)
    → Rest n (skip_documents docs o)
skip_documents-Rest n [] o h = h
skip_documents-Rest n (doc ∷ docs) o h =
    and_then-Rest n (seek_in doc o) (λ rest. skip_documents docs rest) (seek_in-Rest n doc o h)
      (skip_documents-Rest n docs)

resume-Short : (n : ℕ) (r : Reading) (o : Option (Option Text)) → Rest n o → Short n (resume r o)
resume-Short n r none h = tt
resume-Short n r (some none) h = omega arith
resume-Short n r (some (some s)) h = h

end_line-Short : (r : Reading) (s : Text) → Short (length s) (end_line r s)
unfolding end_line
end_line-Short r s =
    resume-Short (length s) (drop_documents (finish r))
      (skip_documents (finish r).heredocs (some s))
      (skip_documents-Rest (length s) (finish r).heredocs (some s) (omega arith))

escaped-Short : (r : Reading) (s : Text) → Short (length s) (escaped r s)
unfolding escaped
escaped-Short r [] = tt
escaped-Short r (c ∷ s) = omega arith

quoted_escape-Short : (q : ℕ) (r : Reading) (s : Text) → Short (length s) (quoted_escape q r s)
unfolding quoted_escape
quoted_escape-Short q r [] = omega arith
quoted_escape-Short q r (c ∷ s) = ground arith

document-Short : (r : Reading) (s : Text) → Short (length s) (document r s)
unfolding document
document-Short r [] = omega arith
document-Short r (c ∷ s) = ground arith

less-Short : (r : Reading) (s : Text) → Short (length s) (less r s)
unfolding less
less-Short r [] = tt
less-Short r (c ∷ []) = ground (arith, document-Short r [])
less-Short r (c ∷ d ∷ s) = ground (arith, document-Short r (d ∷ s))

ampersand-Short : (r : Reading) (s : Text) → Short (length s) (ampersand r s)
unfolding ampersand
ampersand-Short r [] = tt
ampersand-Short r (c ∷ s) = ground arith

bare-Short : (c : ℕ) (r : Reading) (s : Text) → Short (length s) (bare c r s)
unfolding bare
bare-Short c r s = ground (
  arith,
  escaped-Short r s,
  end_line-Short r s,
  less-Short r s,
  ampersand-Short r s,
  skip_comment-length s,
)

in_quote-Short : (q c : ℕ) (r : Reading) (s : Text) → Short (length s) (in_quote q c r s)
unfolding in_quote
in_quote-Short q c r s = ground (arith, quoted_escape-Short q r s)

round-Short : (q : Option ℕ) (c : ℕ) (r : Reading) (s : Text) → Short (length s) (round q c r s)
round-Short none c r s = bare-Short c r s
round-Short (some q) c r s = in_quote-Short q c r s

abbrev Reads : ℕ → (Option ℕ → Reading → Text → Option (Option (List (List Text)))) → Type 0
Reads n loop =
    (q : Option ℕ) (r : Reading) (s : Text)
    → length s ≤ n
    → (v : Option (List (List Text))) × (loop q r s ≡ some v)

repeat-total :
    (n fuel : ℕ) (m : Round)
    → Short n m
    → n ≤ fuel
    → Reads fuel (read fuel)
    → (v : Option (List (List Text))) × (repeat (read fuel) m ≡ some v)
repeat-total n fuel fail h l loop = (none, refl)
repeat-total n fuel (go q r s) h l loop = loop q r s (omega arith)

read-total : (fuel : ℕ) → Reads fuel (read fuel)
read-total fuel q r [] h = (commands_of q r, refl)
read-total zero q r (c ∷ s) h = let no : ⊥ = omega arith in elim no [ ]
read-total (suc fuel) q r (c ∷ s) h =
    repeat-total (length s) fuel (round q c r s) (round-Short q c r s) (omega arith)
      (read-total fuel)

or_else-some {ℓ} :
    {A : Type ℓ} (o : Option A) (d : A) → ((a : A) × (o ≡ some a)) → o ≡ some (or_else o d)
or_else-some none d h = cc (h.1)
or_else-some (some a) d h = refl

-- The shell reader ends on every source: the loop, with the length of the source as fuel, gives a
-- result, and `commands` returns that result.
pub read-commands :
    (source : Text) → read (length source) none start source ≡ some (commands source)
unfolding commands
read-commands source =
    or_else-some (read (length source) none start source) none
      (read-total (length source) none start source (omega arith))
