-- ===== src/Tasks/Evidence/Shell.antt =====
-- The restricted reader of shell commands: `commands` of
-- apps/server/src/modules/tasks/adapters/outbound/pr-evidence.ts. Texts are UTF-16 code units; a step
-- of the loop takes at least one of them, so the length of the source is fuel enough.
use palmagent.Common.{
  ℕ, zero, suc, Text, Bool, true, false, ◌&&◌, ◌||◌, not, Option, none, some, List, [], ◌∷◌, ◌++◌,
  ◌==◌, nat_eq, list_eq, if◌then◌else◌, includes, is_empty,
}
use palmagent.Common.Texts.{is_space}

abbrev pub newline : ℕ
newline = 10

abbrev pub tab : ℕ
tab = 9

abbrev pub double_quote : ℕ
double_quote = 34

abbrev pub backslash : ℕ
backslash = 92

-- The variables of the loop, but for the quote that is open.
pub record Reading : Type 0 where
  pub result : List (List Text)
  pub words : List Text
  pub word : Text
  pub active : Bool
  pub delimiter : Bool
  pub heredocs : List (Text × Bool)
  pub tabs : Bool

abbrev pub start : Reading
start = record {
  result = [];
  words = [];
  word = [];
  active = false;
  delimiter = false;
  heredocs = [];
  tabs = false;
}

unfoldable pub flush : Reading → Reading
flush r =
    if not r.active
    then r
    else if r.delimiter
    then record r {
      heredocs = r.heredocs ++ (r.word, r.tabs) ∷ [];
      delimiter = false;
      word = [];
      active = false;
    }
    else record r { words = r.words ++ r.word ∷ []; word = []; active = false }

abbrev pub collect : Reading → Reading
collect r =
    if is_empty r.words then r else record r { result = r.result ++ r.words ∷ []; words = [] }

unfoldable pub finish : Reading → Reading
unfolding flush
finish r = collect (flush r)

abbrev pub push_unit : ℕ → Reading → Reading
push_unit c r = record r { word = r.word ++ c ∷ []; active = true }

-- A character in quotes: the word is active since the quote was opened.
abbrev pub quoted : ℕ → Reading → Reading
quoted c r = record r { word = r.word ++ c ∷ [] }

abbrev pub activate : Reading → Reading
activate r = record r { active = true }

abbrev pub push_word : Text → Reading → Reading
push_word w r = record r { words = r.words ++ w ∷ [] }

abbrev pub open_delimiter : Bool → Reading → Reading
open_delimiter tabs r = record r { delimiter = true; tabs = tabs }

abbrev pub drop_tabs : Text → Text
drop_tabs [] = []
drop_tabs (c ∷ s) = let rest = drop_tabs s in if c == tab then rest else c ∷ s

abbrev pub ends_document : Text × Bool → Text → Bool
ends_document (end_word, tabs) line = (if tabs then drop_tabs line else line) == end_word

-- Reads lines up to the one that ends the document. What follows is `none` at the end of the source;
-- the outer option is `none` when no line ends it.
abbrev pub seek : Text × Bool → Text → Text → Option (Option Text)
seek doc line [] = if ends_document doc line then some none else none
seek doc line (c ∷ s) =
    let next_line = seek doc [] s in
    let same_line = seek doc (line ++ c ∷ []) s in
    if c == newline
    then (if ends_document doc line then some (some s) else next_line)
    else same_line

abbrev pub seek_in : Text × Bool → Option Text → Option (Option Text)
seek_in doc none = none
seek_in doc (some s) = seek doc [] s

abbrev pub and_then {ℓ} : {A B : Type ℓ} → Option A → (A → Option B) → Option B
and_then none k = none
and_then (some a) k = k a

abbrev pub skip_documents : List (Text × Bool) → Option Text → Option (Option Text)
skip_documents [] s = some s
skip_documents (doc ∷ docs) s = and_then (seek_in doc s) (λ rest. skip_documents docs rest)

abbrev pub skip_comment : Text → Text
skip_comment [] = []
skip_comment (c ∷ s) = let rest = skip_comment s in if c == newline then c ∷ s else rest

abbrev pub drop_documents : Reading → Reading
drop_documents r = record r { heredocs = [] }

-- `/[\\"$`\n]/`
abbrev pub is_escapable : ℕ → Bool
is_escapable c = includes (92 ∷ 34 ∷ 36 ∷ 96 ∷ 10 ∷ []) c

-- `/[|&<(){}$`]/`
abbrev pub is_unsupported : ℕ → Bool
is_unsupported c = includes (124 ∷ 38 ∷ 60 ∷ 40 ∷ 41 ∷ 123 ∷ 125 ∷ 36 ∷ 96 ∷ []) c

-- What one round of the loop does: it returns `null`, or goes on with the quote, the variables and the
-- rest of the source.
pub data Round : Type 0 where
  fail : Round
  go : Option ℕ → Reading → Text → Round

unfoldable pub escaped : Reading → Text → Round
escaped r [] = fail
escaped r (c ∷ s) = go none (if c == newline then r else push_unit c r) s

-- `\` within double quotes
unfoldable pub quoted_escape : ℕ → Reading → Text → Round
quoted_escape q r [] = go (some q) (quoted backslash r) []
quoted_escape q r (c ∷ s) =
    if is_escapable c
    then go (some q) (if c == newline then r else quoted c r) s
    else go (some q) (quoted backslash r) (c ∷ s)

unfoldable pub in_quote : ℕ → ℕ → Reading → Text → Round
unfolding quoted_escape
in_quote q c r s =
    if c == q
    then go none r s
    else if (q == double_quote) && ((c == 36) || (c == 96))
    then fail
    else if (q == double_quote) && (c == backslash)
    then quoted_escape q r s
    else go (some q) (quoted c r) s

abbrev pub resume : Reading → Option (Option Text) → Round
resume r none = fail
resume r (some none) = go none r []
resume r (some (some s)) = go none r s

unfoldable pub end_line : Reading → Text → Round
unfolding finish
end_line r s = let f = finish r in resume (drop_documents f) (skip_documents f.heredocs (some s))

-- After `<<`.
unfoldable pub document : Reading → Text → Round
unfolding flush
document r [] = go none (open_delimiter false (flush r)) []
document r (c ∷ s) =
    if c == 45
    then go none (open_delimiter true (flush r)) s
    else go none (open_delimiter false (flush r)) (c ∷ s)

-- `<`: a document is opened by two of them and no third.
unfoldable pub less : Reading → Text → Round
unfolding document
less r [] = fail
less r (c ∷ []) = if c == 60 then document r [] else fail
less r (c ∷ d ∷ s) = if (c == 60) && not (d == 60) then document r (d ∷ s) else fail

-- `&`: only `&&` is supported.
unfoldable pub ampersand : Reading → Text → Round
unfolding finish
ampersand r [] = fail
ampersand r (c ∷ s) = if c == 38 then go none (finish r) s else fail

unfoldable pub bare : ℕ → Reading → Text → Round
unfolding escaped end_line flush finish less ampersand
bare c r s =
    if (c == 39) || (c == double_quote)
    then go (some c) (activate r) s
    else if c == backslash
    then escaped r s
    else if (c == 35) && not r.active
    then go none r (skip_comment s)
    else if c == newline
    then end_line r s
    else if is_space c
    then go none (flush r) s
    else if c == 60
    then less r s
    else if c == 38
    then ampersand r s
    else if c == 59
    then go none (finish r) s
    else if c == 62
    then go none (push_word (62 ∷ []) (flush r)) s
    else if is_unsupported c
    then fail
    else go none (push_unit c r) s

abbrev pub round : Option ℕ → ℕ → Reading → Text → Round
round none c r s = bare c r s
round (some q) c r s = in_quote q c r s

-- After the loop.
unfoldable pub commands_of : Option ℕ → Reading → Option (List (List Text))
unfolding finish
commands_of (some q) r = none
commands_of none r =
    if r.delimiter || not (is_empty r.heredocs) then none else some (finish r).result

abbrev pub repeat :
    (Option ℕ → Reading → Text → Option (Option (List (List Text))))
    → Round
    → Option (Option (List (List Text)))
repeat loop fail = some none
repeat loop (go q r s) = loop q r s

-- The loop; the outer option is `none` when the fuel runs out.
abbrev pub read : ℕ → Option ℕ → Reading → Text → Option (Option (List (List Text)))
read fuel q r [] = some (commands_of q r)
read zero q r (c ∷ s) = none
read (suc fuel) q r (c ∷ s) = repeat (read fuel) (round q c r s)
