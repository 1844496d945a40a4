-- ===== src/Conversation/Transcript/Work.antt =====
-- Placing the items of a turn in rows: the loop of `flush` within `presentTranscript` of
-- packages/shared/src/conversation.ts.
use palmagent.Common.{
  ℕ, ◌+◌, Text, Bool, true, false, ◌&&◌, ◌||◌, not, Option, none, some, List, [], ◌∷◌, ◌++◌, ◌==◌,
  nat_eq, option_eq, list_eq, if◌then◌else◌, includes, is_empty, trim,
}
use palmagent.Events.{status, tool_call, tool_result, result, AgentKind, get, as_string, says}
use palmagent.Conversation.Log.{
  final, Content, prose, other, LogItem, has_kind, payload, trace_image, failed,
}
use palmagent.Conversation.Transcript.Rows.{
  Activity, RunFailure, Row, activity, failure, message, Placed, placed, update_place,
  change_activity, change_failure, activities,
}
use palmagent.Conversation.Transcript.Phases.{Phases, in_progress, prose_of}

-- The variables of the loop over the turn.
pub record Work : Type 0 where
  pub rows : List Placed
  pub next : ℕ
  pub failing : Option ℕ
  pub group : Option ℕ
  pub texts : List Text

abbrev pub push : Row → Work → Work
push row w = record w { rows = w.rows ++ placed w.next row ∷ []; next = w.next + 1 }

abbrev pub new_failure : LogItem → RunFailure
new_failure item = record { key = item.key; items = item ∷ []; previous = false; completed = false }

abbrev pub join_failure : LogItem → RunFailure → RunFailure
join_failure item r = record r { items = r.items ++ item ∷ []; completed = false }

-- Run errors have one disclosure.
abbrev pub fail : LogItem → Option ℕ → Work → Work
fail item none w = record (push (failure (new_failure item)) w) { failing = some w.next }
fail item (some n) w = record w {
  rows = update_place n (change_failure (join_failure item)) w.rows;
}

abbrev pub complete : Option ℕ → Work → Work
complete none w = w
complete (some n) w = record w {
  rows = update_place n (change_failure (λ r. record r { completed = true })) w.rows;
}

abbrev pub last_place : List (ℕ × Activity) → Option ℕ
last_place [] = none
last_place ((n, a) ∷ []) = some n
last_place ((n, a) ∷ q ∷ rest) = last_place (q ∷ rest)

abbrev pub push_item : LogItem → Activity → Activity
push_item item a = record a { items = a.items ++ item ∷ [] }

-- Late classification belongs to the disclosure before it.
abbrev pub mark : LogItem → Option ℕ → Work → Work
mark item none w = w
mark item (some n) w = record w { rows = update_place n (change_activity (push_item item)) w.rows }

abbrev pub new_group : LogItem → Activity
new_group item = record { key = item.key; items = item ∷ []; live = false; preview = none }

abbrev pub group_item : LogItem → Option ℕ → Work → Work
group_item item none w = record (push (activity (new_group item)) w) { group = some w.next }
group_item item (some n) w = record w {
  rows = update_place n (change_activity (push_item item)) w.rows;
}

abbrev pub preview_group : Option Text → Option ℕ → Work → Work
preview_group (some t) (some n) w = record w {
  rows = update_place n (change_activity (λ a. record a { preview = some t })) w.rows;
}
preview_group (some t) none w = w
preview_group none g w = w

abbrev pub is_machinery : LogItem → Bool
is_machinery item =
    has_kind item status
    || has_kind item tool_call
    || has_kind item tool_result
    || trace_image item
    || has_kind item result

abbrev pub agent_of : Content → Option AgentKind
agent_of (prose agent t id p) = none
agent_of (other ev deferred) = some ev.agent

-- The answer that only the result of the turn holds.
abbrev pub answer : LogItem → AgentKind → Text → Work → Work
answer item agent t w =
    if not (is_empty (trim t)) && not (includes w.texts (trim t))
    then record (push
        (message item.key
          (record { key = item.key; end_seq = none; content = prose agent t none (some final) }))
        w) { texts = trim t ∷ w.texts }
    else w

abbrev pub answer_of : LogItem → Option AgentKind → Option Text → Work → Work
answer_of item (some agent) (some t) w = answer item agent t w
answer_of item (some agent) none w = w
answer_of item none t w = w

unfoldable pub answered : LogItem → Work → Work
unfolding failed
answered item w =
    if has_kind item result && not (failed item)
    then answer_of item (agent_of item.content) (as_string (get "result" (payload item))) w
    else w

unfoldable pub is_run_error : LogItem → Bool
unfolding failed
is_run_error item =
    failed item && (not (has_kind item tool_call) && not (has_kind item tool_result))

abbrev pub is_marker : LogItem → Bool
is_marker item = has_kind item status && says (get "subtype" (payload item)) "assistant_message"

abbrev pub foreground : LogItem → Work → Work
foreground item w = push (message item.key item) (record w { group = none })

module _ (active : Bool) (start : ℕ) (ps : Phases) (latest : Option ℕ) where
  abbrev pub preview_of : LogItem → Option Text
  preview_of item = if (latest == some item.key) && active then prose_of item.content else none

  abbrev pub background : LogItem → Work → Work
  background item w =
      let grouped = group_item item w.group w in
      preview_group (preview_of item) grouped.group grouped

  abbrev pub placed_item : LogItem → Work → Work
  placed_item item w =
      if is_machinery item || in_progress ps item then background item w else foreground item w

  abbrev pub sorted_in : LogItem → Work → Work
  sorted_in item w =
      let completed = if has_kind item result then complete w.failing w else w in
      if is_marker item
      then mark item (last_place (activities start completed.rows)) completed
      else answered item (placed_item item completed)

  unfoldable pub work_item : LogItem → Work → Work
  unfolding is_run_error
  work_item item w = if is_run_error item then fail item w.failing w else sorted_in item w

  unfoldable pub work_items : List LogItem → Work → Work
  unfolding work_item
  work_items [] w = w
  work_items (item ∷ items) w = work_items items (work_item item w)
