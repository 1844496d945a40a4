-- ===== src/Conversation/Transcript/Rows.antt =====
-- The rows of a transcript and the state of `presentTranscript` of
-- packages/shared/src/conversation.ts.
use palmagent.Common.{
  ℕ, ◌+◌, Text, Bool, true, Option, none, some, List, [], ◌∷◌, ◌++◌, ◌==◌, nat_eq, map, leb,
  if◌then◌else◌,
}
use palmagent.Conversation.Log.{LogItem}

pub record Activity : Type 0 where
  pub key : ℕ
  pub items : List LogItem
  pub live : Bool
  pub preview : Option Text

pub record RunFailure : Type 0 where
  pub key : ℕ
  pub items : List LogItem
  pub previous : Bool
  pub completed : Bool

pub data Row : Type 0 where
  activity : Activity → Row
  failure : RunFailure → Row
  message : ℕ → LogItem → Row

-- A row with its place.
pub record Placed : Type 0 where
  pub place : ℕ
  pub row : Row

pub record Transcript : Type 0 where
  pub rows : List Placed
  pub next : ℕ
  pub turn : List LogItem
  pub failing : Option ℕ

abbrev pub empty_transcript : Transcript
empty_transcript = record { rows = []; next = 0; turn = []; failing = none }

abbrev pub rows_of : List Placed → List Row
rows_of rows = map (λ (p : Placed). p.row) rows

abbrev pub placed : ℕ → Row → Placed
placed n row = record { place = n; row = row }

-- `rows.push(row)`
abbrev pub add_row : Row → Transcript → Transcript
add_row row t = record t { rows = t.rows ++ placed t.next row ∷ []; next = t.next + 1 }

abbrev pub add_to_turn : LogItem → Transcript → Transcript
add_to_turn item t = record t { turn = t.turn ++ item ∷ [] }

-- A write through a reference to a row.
abbrev pub update_place : ℕ → (Row → Row) → List Placed → List Placed
update_place n f [] = []
update_place n f (p ∷ ps) =
    (if p.place == n then record p { row = f p.row } else p) ∷ update_place n f ps

abbrev pub change_activity : (Activity → Activity) → Row → Row
change_activity f (activity a) = activity (f a)
change_activity f (failure r) = failure r
change_activity f (message k item) = message k item

abbrev pub change_failure : (RunFailure → RunFailure) → Row → Row
change_failure f (activity a) = activity a
change_failure f (failure r) = failure (f r)
change_failure f (message k item) = message k item

abbrev pub forget : Option ℕ → List Placed → List Placed
forget none rows = rows
forget (some n) rows = update_place n (change_failure (λ r. record r { previous = true })) rows

abbrev pub forget_failure : Transcript → Transcript
forget_failure t = record t { rows = forget t.failing t.rows; failing = none }

abbrev pub activity_of : ℕ → ℕ → Row → List (ℕ × Activity) → List (ℕ × Activity)
activity_of start n (activity a) rest = if leb start n then (n, a) ∷ rest else rest
activity_of start n (failure r) rest = rest
activity_of start n (message k item) rest = rest

-- The rows from the place `start` on that are activities, with their places.
abbrev pub activities : ℕ → List Placed → List (ℕ × Activity)
activities start [] = []
activities start (p ∷ ps) = activity_of start p.place p.row (activities start ps)
