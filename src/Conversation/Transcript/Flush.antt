-- ===== src/Conversation/Transcript/Flush.antt =====
-- The end of a turn: `flush` within `presentTranscript` of packages/shared/src/conversation.ts.
use Prim.Native.Nat.{min}
use palmagent.Common.{
  ℕ, Bool, true, false, ◌||◌, Option, none, some, List, [], ◌∷◌, ◌++◌, ◌==◌, nat_eq, option_eq,
  list_eq, if◌then◌else◌, any, keep, is_empty, ltb,
}
use palmagent.Events.{tool_call, tool_result}
use palmagent.Conversation.Log.{LogItem, has_kind, trace_image}
use palmagent.Conversation.Transcript.Rows.{
  Activity, Row, activity, failure, message, Placed, Transcript, update_place, change_activity,
  activities,
}
use palmagent.Conversation.Transcript.Phases.{
  Phases, phases_of, in_progress, latest_progress, answer_texts,
}
use palmagent.Conversation.Transcript.Work.{Work, last_place, work_items}

-- A group of work has a tool or progress; others do not deserve a row of their own.
abbrev pub is_work_item : Phases → LogItem → Bool
is_work_item ps item =
    has_kind item tool_call || has_kind item tool_result || trace_image item || in_progress ps item

abbrev pub is_work : Phases → ℕ × Activity → Bool
is_work ps (n, a) = any (is_work_item ps) a.items

abbrev pub insert_item : LogItem → List LogItem → List LogItem
insert_item x [] = x ∷ []
insert_item x (y ∷ ys) =
    let rest = insert_item x ys in if ltb x.key y.key then x ∷ y ∷ ys else y ∷ rest

-- `items.sort((a, b) => a.key - b.key)`, which keeps the order of equal keys.
abbrev pub sort_items : List LogItem → List LogItem → List LogItem
sort_items sorted [] = sorted
sort_items sorted (x ∷ xs) = sort_items (insert_item x sorted) xs

abbrev pub after_key : ℕ → List (ℕ × Activity) → Option ℕ
after_key k [] = none
after_key k ((n, a) ∷ rest) = let later = after_key k rest in if ltb k a.key then some n else later

abbrev pub or_last : Option ℕ → List (ℕ × Activity) → Option ℕ
or_last none work = last_place work
or_last (some n) work = some n

abbrev pub absorb_items : List LogItem → Activity → Activity
absorb_items items a = record a { items = sort_items [] (a.items ++ items) }

abbrev pub absorb : Option ℕ → Activity → List Placed → List Placed
absorb none a rows = rows
absorb (some n) a rows = update_place n (change_activity (absorb_items a.items)) rows

-- Groups without work are kept in the nearest group of work: the first after it, or the last.
abbrev pub absorb_groups :
    Phases → List (ℕ × Activity) → List (ℕ × Activity) → List Placed → List Placed
absorb_groups ps work [] rows = rows
absorb_groups ps work ((n, a) ∷ groups) rows =
    absorb_groups ps work groups
      (if is_work ps (n, a) then rows else absorb (or_last (after_key a.key work) work) a rows)

abbrev pub least_key : ℕ → List LogItem → ℕ
least_key k [] = k
least_key k (item ∷ items) = least_key (min k item.key) items

abbrev pub rekey : Activity → Activity
rekey a = record a { key = least_key a.key a.items }

abbrev pub rekey_groups : List (ℕ × Activity) → List Placed → List Placed
rekey_groups [] rows = rows
rekey_groups ((n, a) ∷ work) rows = rekey_groups work (update_place n (change_activity rekey) rows)

abbrev pub has_place : ℕ → List (ℕ × Activity) → Bool
has_place n [] = false
has_place n ((m, a) ∷ rest) = (m == n) || has_place n rest

abbrev pub stays : ℕ → List (ℕ × Activity) → ℕ → Row → Bool
stays start work n (activity a) = ltb n start || has_place n work
stays start work n (failure r) = true
stays start work n (message k item) = true

abbrev pub is_visible : ℕ → List (ℕ × Activity) → Placed → Bool
is_visible start work p = stays start work p.place p.row

abbrev pub enliven : Option ℕ → List Placed → List Placed
enliven none rows = rows
enliven (some n) rows = update_place n (change_activity (λ a. record a { live = true })) rows

-- What becomes of the rows of a turn, and of those before it, once its items are placed.
abbrev pub settled_rows : Bool → ℕ → Phases → List Placed → List Placed
settled_rows active start ps rows =
    let groups = activities start rows in
    let work = keep (is_work ps) groups in
    let visible =
      keep (is_visible start work) (rekey_groups work (absorb_groups ps work groups rows)) in
    if active then enliven (last_place (activities start visible)) visible else visible

unfoldable pub worked : Bool → Transcript → Work
unfolding work_items
worked active t =
    let ps = phases_of t.turn [] in
    work_items active t.next ps (latest_progress ps t.turn) t.turn (record {
      rows = t.rows;
      next = t.next;
      failing = t.failing;
      group = none;
      texts = answer_texts ps t.turn;
    })

unfoldable pub flush : Bool → Transcript → Transcript
unfolding worked
flush active t =
    if is_empty t.turn
    then t
    else (let w = worked active t in
        record {
          rows = settled_rows active t.next (phases_of t.turn []) w.rows;
          next = w.next;
          turn = [];
          failing = w.failing;
        })
