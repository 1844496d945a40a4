-- ===== src/Routines/Cron.antt =====
-- Cron expressions: `presetToCron`, `parseCron` and `parseField` of
-- apps/server/src/modules/routines/domain/schedule.ts. Texts are lists of character codes.
use Prim.Native.Nat.{min, max}
use palmagent.Common.{
  ℕ, zero, suc, ◌+◌, ◌-◌, ◌*◌, ◌/◌, ◌%◌, Bool, true, false, ◌&&◌, ◌||◌, not, Option, none, some,
  List, [], ◌∷◌, ◌++◌, keep, every, includes, length, ltb, leb, ◌==◌, nat_eq, if◌then◌else◌,
  or_else, codes,
}

abbrev pub default_hour : ℕ
default_hour = 9

abbrev pub default_day_of_week : ℕ
default_day_of_week = 1

pub data RoutinePreset : Type 0 where
  hourly daily weekly weekdays manual custom : RoutinePreset

-- A JavaScript number, as far as `clampInt` looks: `below n` is -(n + 1), `fraction` is no integer.
pub data Number : Type 0 where
  integer : ℕ → Number
  below : ℕ → Number
  fraction : Number

unfoldable pub clamp_int : Option Number → ℕ → ℕ → ℕ → ℕ
clamp_int (some (integer n)) lo hi default = min hi (max lo n)
clamp_int (some (below n)) lo hi default = min hi lo
clamp_int (some fraction) lo hi default = min hi (max lo default)
clamp_int none lo hi default = min hi (max lo default)

-- The decimal digits of a number below 100.
abbrev pub decimal : ℕ → List ℕ
decimal n = if ltb n 10 then (48 + n) ∷ [] else (48 + n / 10) ∷ (48 + n % 10) ∷ []

-- The expression of a preset, for an hour and a day in range.
unfoldable pub preset_text : RoutinePreset → ℕ → ℕ → Option (List ℕ)
preset_text hourly h d = some (codes "0 * * * *")
preset_text daily h d = some (codes "0 " ++ (decimal h ++ codes " * * *"))
preset_text weekly h d = some (codes "0 " ++ (decimal h ++ (codes " * * " ++ decimal d)))
preset_text weekdays h d = some (codes "0 " ++ (decimal h ++ codes " * * 1-5"))
preset_text manual h d = none
preset_text custom h d = none

unfoldable pub hour_of : Option Number → ℕ
unfolding clamp_int
hour_of hour = clamp_int hour 0 23 default_hour

unfoldable pub day_of : Option Number → ℕ
unfolding clamp_int
day_of day = clamp_int day 0 6 default_day_of_week

unfoldable pub preset_to_cron : RoutinePreset → Option Number → Option Number → Option (List ℕ)
unfolding clamp_int preset_text
preset_to_cron preset hour day = preset_text preset (hour_of hour) (day_of day)

pub data CronError : Type 0 where
  field_count : ℕ → CronError
  bad_field : (field : ℕ) → List ℕ → CronError
  bad_step : List ℕ → CronError
  out_of_range : (field : ℕ) → List ℕ → CronError

pub data Parsed {ℓ} (A : Type ℓ) : Type ℓ where
  good : A → Parsed A
  bad : CronError → Parsed A

infixl 5 ◌>>=◌
abbrev pub ◌>>=◌ {ℓ κ} : {A : Type ℓ} {B : Type κ} → Parsed A → (A → Parsed B) → Parsed B
good a >>= f = f a
bad e >>= f = bad e

pub record CronSpec : Type 0 where
  pub minute : List ℕ
  pub hour : List ℕ
  pub dom : List ℕ
  pub month : List ℕ
  pub dow : List ℕ
  pub dom_restricted : Bool
  pub dow_restricted : Bool

-- `\s` of a regular expression.
abbrev pub is_space : ℕ → Bool
is_space c =
    (leb 9 c && leb c 13)
    || c == 32
    || c == 160
    || c == 5760
    || (leb 8192 c && leb c 8202)
    || c == 8232
    || c == 8233
    || c == 8239
    || c == 8287
    || c == 12288
    || c == 65279

abbrev pub is_digit : ℕ → Bool
is_digit c = leb 48 c && leb c 57

abbrev pub cons_word : List ℕ → List (List ℕ) → List (List ℕ)
cons_word [] ws = ws
cons_word (c ∷ w) ws = (c ∷ w) ∷ ws

-- The words between runs of white space: `expr.trim().split(/\s+/)`, but for a blank text, of which
-- the source makes one empty word. `word` holds the word read so far.
unfoldable pub words_from : List ℕ → List ℕ → List (List ℕ)
words_from word [] = cons_word word []
words_from word (c ∷ cs) = elim (is_space c) [
  | true ↦ cons_word word (words_from [] cs)
  | false ↦ words_from (word ++ c ∷ []) cs
]

abbrev pub or_blank : List (List ℕ) → List (List ℕ)
or_blank [] = [] ∷ []
or_blank (w ∷ ws) = w ∷ ws

unfoldable pub split_words : List ℕ → List (List ℕ)
unfolding words_from
split_words cs = or_blank (words_from [] cs)

-- `text.split(separator)`
unfoldable pub split_from : ℕ → List ℕ → List ℕ → List (List ℕ)
split_from sep part [] = part ∷ []
split_from sep part (c ∷ cs) = elim (c == sep) [
  | true ↦ part ∷ split_from sep [] cs
  | false ↦ split_from sep (part ++ c ∷ []) cs
]

abbrev pub value_of : ℕ → List ℕ → ℕ
value_of n [] = n
value_of n (c ∷ cs) = value_of (n * 10 + (c - 48)) cs

-- `\d+`
abbrev pub number : List ℕ → Option ℕ
number [] = none
number (c ∷ cs) = if every is_digit (c ∷ cs) then some (value_of 0 (c ∷ cs)) else none

pub data Range : Type 0 where
  star : Range
  single : ℕ → Range
  span : ℕ → ℕ → Range

abbrev pub both : Option ℕ → Option ℕ → Option Range
both (some a) (some b) = some (span a b)
both _ _ = none

abbrev pub one : Option ℕ → Option Range
one none = none
one (some a) = some (single a)

abbrev pub range_of_parts : List (List ℕ) → Option Range
range_of_parts (a ∷ []) = one (number a)
range_of_parts (a ∷ b ∷ []) = both (number a) (number b)
range_of_parts _ = none

abbrev pub is_star : List ℕ → Bool
is_star (c ∷ []) = c == b'*'
is_star _ = false

-- `\*|\d+(?:-\d+)?`
unfoldable pub range_of : List ℕ → Option Range
unfolding split_from
range_of text = if is_star text then some star else range_of_parts (split_from b'-' [] text)

pub record Piece : Type 0 where
  pub range : Range
  pub step : Option ℕ

abbrev pub piece_of_range : Option Range → Option Piece
piece_of_range none = none
piece_of_range (some r) = some (record { range = r; step = none })

abbrev pub piece_of_step : Option Range → Option ℕ → Option Piece
piece_of_step (some r) (some n) = some (record { range = r; step = some n })
piece_of_step _ _ = none

abbrev pub piece_of_parts : List (List ℕ) → Option Piece
unfolding range_of
piece_of_parts (r ∷ []) = piece_of_range (range_of r)
piece_of_parts (r ∷ n ∷ []) = piece_of_step (range_of r) (number n)
piece_of_parts _ = none

-- The match of one piece of a field.
unfoldable pub piece_of : List ℕ → Option Piece
unfolding split_from range_of
piece_of text = piece_of_parts (split_from b'/' [] text)

-- `for (let v = lo; v <= hi; v += step) out.add(v)`, with fuel for the rounds.
unfoldable pub values : ℕ → ℕ → ℕ → ℕ → List ℕ
values zero v hi step = []
values (suc rounds) v hi step =
    let rest = values rounds (v + step) hi step in if leb v hi then v ∷ rest else []

abbrev pub low : ℕ → Range → ℕ
low min star = min
low min (single a) = a
low min (span a b) = a

-- "5/10" is every 10 from 5 on; "5" is exactly 5.
abbrev pub high : ℕ → Range → Option ℕ → ℕ
high max star step = max
high max (single a) none = a
high max (single a) (some n) = max
high max (span a b) step = b

pub record Field : Type 0 where
  pub index : ℕ
  pub min : ℕ
  pub max : ℕ

unfoldable pub expand : Field → List ℕ → Piece → Parsed (List ℕ)
unfolding values
expand f text p =
    let step = or_else p.step 1 in
    let lo = low f.min p.range in
    let hi = high f.max p.range p.step in
    if ltb step 1
    then bad (bad_step text)
    else if ltb lo f.min || ltb f.max hi || ltb hi lo
    then bad (out_of_range f.index text)
    else good (values (suc (hi - lo)) lo hi step)

abbrev pub parse_piece : Field → List ℕ → Option Piece → Parsed (List ℕ)
unfolding expand
parse_piece f text none = bad (bad_field f.index text)
parse_piece f text (some p) = expand f text p

unfoldable pub parse_pieces : Field → List (List ℕ) → Parsed (List ℕ)
unfolding piece_of expand
parse_pieces f [] = good []
parse_pieces f (text ∷ rest) = do
  here ← parse_piece f text (piece_of text)
  later ← parse_pieces f rest
  good (here ++ later)

unfoldable pub parse_field : Field → List ℕ → Parsed (List ℕ)
unfolding parse_pieces split_from
parse_field f part = parse_pieces f (split_from b',' [] part)

abbrev pub field : ℕ → ℕ → ℕ → Field
field index min max = record { index = index; min = min; max = max }

-- 7 is Sunday, as 0 is.
abbrev pub fold_sunday : List ℕ → List ℕ
fold_sunday days = if includes days 7 then 0 ∷ keep (λ d. not (d == 7)) days else days

abbrev pub spec_of_parts : List (List ℕ) → Parsed CronSpec
unfolding parse_field
spec_of_parts (m ∷ h ∷ dom ∷ mon ∷ dow ∷ []) = do
  minutes ← parse_field (field 0 0 59) m
  hours ← parse_field (field 1 0 23) h
  days ← parse_field (field 2 1 31) dom
  months ← parse_field (field 3 1 12) mon
  week_days ← parse_field (field 4 0 7) dow
  good (record {
    minute = minutes;
    hour = hours;
    dom = days;
    month = months;
    dow = fold_sunday week_days;
    dom_restricted = not (is_star dom);
    dow_restricted = not (is_star dow);
  })
spec_of_parts parts = bad (field_count (length parts))

unfoldable pub parse_cron : List ℕ → Parsed CronSpec
unfolding split_words parse_field
parse_cron expr = spec_of_parts (split_words expr)
