-- ===== src/Events.antt =====
-- What the providers' events look like: packages/shared/src/events.ts. A payload is a JSON value.
pub mod Summary
use palmagent.Common.{
  ℕ, zero, suc, String, Text, codes, Bool, true, false, Option, none, some, Eq, ◌==◌, ◌≡◌, ◌↔◌,
  refl, ltb, ◌+◌, ◌/◌, ◌%◌, ◌++◌, option_eq, nat_eq, string_eq, list_eq, List, [], ◌∷◌,
  if◌then◌else◌, ◌||◌,
}

pub data AgentKind : Type 0 where
  claude codex : AgentKind

pub data AgentEventKind : Type 0 where
  status output_image assistant_text tool_call tool_result : AgentEventKind
  approval_request question result error : AgentEventKind

-- A number of JSON: `below n` is -(n + 1); a fraction or an infinity is kept as its text.
pub data Numeral : Type 0 where
  natural : ℕ → Numeral
  below : ℕ → Numeral
  other : Text → Numeral

mutual
  pub data Json : Type 0 where
    null : Json
    boolean : Bool → Json
    number : Numeral → Json
    string : Text → Json
    array : Items → Json
    object : Members → Json

  pub data Items : Type 0 where
    nil : Items
    cons : Json → Items → Items

  pub data Members : Type 0 where
    end : Members
    field : String → Json → Members → Members

pub record AgentEvent : Type 0 where
  pub task_id : String
  pub agent : AgentKind
  pub kind : AgentEventKind
  pub session_id : Option String
  pub payload : Json
  pub ts : ℕ

abbrev pub kind_number : AgentEventKind → ℕ
kind_number status = 0
kind_number output_image = 1
kind_number assistant_text = 2
kind_number tool_call = 3
kind_number tool_result = 4
kind_number approval_request = 5
kind_number question = 6
kind_number result = 7
kind_number error = 8

-- `event.kind === kind`
abbrev pub is_kind : AgentEventKind → AgentEventKind → Bool
is_kind k l = kind_number k == kind_number l

abbrev pub agent_beq : AgentKind → AgentKind → Bool
agent_beq claude claude = true
agent_beq codex codex = true
agent_beq claude codex = false
agent_beq codex claude = false

pub agent_beq_iff : (a b : AgentKind) → (agent_beq a b ≡ true) ↔ (a ≡ b)
agent_beq_iff claude claude = (λ _. refl, λ _. refl)
agent_beq_iff codex codex = (λ _. refl, λ _. refl)
agent_beq_iff claude codex = (λ h. cc, λ h. cc)
agent_beq_iff codex claude = (λ h. cc, λ h. cc)

instance abbrev pub agent_eq : Eq AgentKind
agent_eq = record { beq = agent_beq; beq_iff = agent_beq_iff }

-- `members[name]`; the parser keeps one entry for a name.
abbrev pub member : String → Members → Option Json
member k end = none
member k (field j v fs) = let rest = member k fs in if j == k then some v else rest

-- `payload(item)[name]`: a value that is no object has no members.
abbrev pub get : String → Json → Option Json
get k (object fs) = member k fs
get k null = none
get k (boolean b) = none
get k (number n) = none
get k (string s) = none
get k (array xs) = none

-- `typeof v === "string" ? v : undefined`
abbrev pub as_string : Option Json → Option Text
as_string (some (string s)) = some s
as_string (some null) = none
as_string (some (boolean b)) = none
as_string (some (number n)) = none
as_string (some (array xs)) = none
as_string (some (object fs)) = none
as_string none = none

-- `v === true`
abbrev pub is_true : Option Json → Bool
is_true (some (boolean b)) = b
is_true (some null) = false
is_true (some (number n)) = false
is_true (some (string s)) = false
is_true (some (array xs)) = false
is_true (some (object fs)) = false
is_true none = false

-- `v === "..."`
abbrev pub says : Option Json → String → Bool
says v s = as_string v == some (codes s)

-- `["...", ...].includes(v)`
abbrev pub says_one : Option Json → List String → Bool
says_one v [] = false
says_one v (s ∷ ss) = says v s || says_one v ss

-- `typeof v === "number" && v !== 0`
abbrev pub is_nonzero : Option Json → Bool
is_nonzero (some (number (natural zero))) = false
is_nonzero (some (number (natural (suc n)))) = true
is_nonzero (some (number (below n))) = true
is_nonzero (some (number (other t))) = true
is_nonzero (some null) = false
is_nonzero (some (boolean b)) = false
is_nonzero (some (string s)) = false
is_nonzero (some (array xs)) = false
is_nonzero (some (object fs)) = false
is_nonzero none = false

-- The decimal digits, least significant last; `n + 1` rounds are enough.
abbrev pub digits : ℕ → ℕ → Text → Text
digits zero n acc = acc
digits (suc fuel) n acc =
    let more = digits fuel (n / 10) ((48 + n % 10) ∷ acc) in
    if ltb n 10 then (48 + n) ∷ acc else more

abbrev pub spell_number : Numeral → Text
spell_number (natural n) = digits (n + 1) n []
spell_number (below n) = codes "-" ++ digits (n + 2) (n + 1) []
spell_number (other t) = t

abbrev pub spell_boolean : Bool → Text
spell_boolean true = codes "true"
spell_boolean false = codes "false"

-- `String(v)`; an array joins its elements, of which `null` is empty.
unfoldable mutual
  pub spell : Json → Text
  spell null = codes "null"
  spell (boolean b) = spell_boolean b
  spell (number n) = spell_number n
  spell (string s) = s
  spell (array xs) = spell_items xs
  spell (object fs) = codes "[object Object]"

  pub spell_items : Items → Text
  spell_items nil = []
  spell_items (cons x nil) = spell_item x
  spell_items (cons x (cons y ys)) = spell_item x ++ codes "," ++ spell_items (cons y ys)

  pub spell_item : Json → Text
  spell_item null = []
  spell_item (boolean b) = spell_boolean b
  spell_item (number n) = spell_number n
  spell_item (string s) = s
  spell_item (array xs) = spell_items xs
  spell_item (object fs) = codes "[object Object]"

unfoldable pub spelled : Option Json → Text
unfolding spell
spelled none = codes "undefined"
spelled (some v) = spell v

-- `["...", ...].includes(String(v))`
unfoldable pub spells_one : Option Json → List String → Bool
unfolding spelled
spells_one v [] = false
spells_one v (s ∷ ss) = (spelled v == codes s) || spells_one v ss

-- `v ?? w`
abbrev pub or_nullish : Option Json → Option Json → Option Json
or_nullish none w = w
or_nullish (some null) w = w
or_nullish (some (boolean b)) w = some (boolean b)
or_nullish (some (number n)) w = some (number n)
or_nullish (some (string s)) w = some (string s)
or_nullish (some (array xs)) w = some (array xs)
or_nullish (some (object fs)) w = some (object fs)
