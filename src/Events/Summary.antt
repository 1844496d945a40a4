-- ===== src/Events/Summary.antt =====
-- Summaries of tool calls and events without their details: `toolSummary` of
-- packages/shared/src/conversation-trace.ts and packages/shared/src/history.ts.
use palmagent.Common.{
  String, Text, codes, Bool, true, false, Option, none, some, List, [], ◌∷◌, ◌++◌, nat_eq, is_some,
  is_empty, or_else, trim, take, if◌then◌else◌,
}
use palmagent.Common.Texts.{is_space}
use palmagent.Events.{
  AgentEvent, tool_call, tool_result, is_kind, Json, null, boolean, number, string, array, object,
  Items, nil, cons, Members, end, field, get, as_string, or_nullish,
}

-- `value.replace(/\s+/g, " ")`; `spaced` says that the last unit was white space.
abbrev pub squeeze : Bool → Text → Text
squeeze spaced [] = []
squeeze spaced (c ∷ s) =
    let more = squeeze true s in
    let plain = squeeze false s in
    if is_space c then (if spaced then more else 32 ∷ more) else c ∷ plain

unfoldable pub short : Text → Text
short value = take 160 (trim (squeeze false value))

abbrev pub text : Option Json → Text
text v = or_else (as_string v) []

-- `a || b` on texts
abbrev pub or_text : Text → Text → Text
or_text a b = if is_empty a then b else a

-- The strings of a list, joined with spaces.
abbrev pub join_strings : Bool → Items → Text
join_strings first nil = []
join_strings first (cons x xs) =
    let here = text (some x) in
    let started = join_strings false xs in
    let skipped = join_strings first xs in
    if is_some (as_string (some x))
    then (if first then here ++ started else 32 ∷ here ++ started)
    else skipped

unfoldable pub described : Json → Json → Text
unfolding short
described payload input =
    let path = or_text (text (get "file_path" input)) (text (get "path" input)) in
    if is_empty path
    then short (or_text (text (get "name" payload)) (codes "Tool"))
    else short (or_text (text (get "name" payload)) (codes "File") ++ 32 ∷ path)

-- The command, if it is a text or a list; the file or the name of the tool otherwise.
unfoldable pub summary_of : Option Json → Json → Json → Text
unfolding short
summary_of (some (string s)) payload input = short s
summary_of (some (array xs)) payload input = short (join_strings true xs)
summary_of (some null) payload input = described payload input
summary_of (some (boolean b)) payload input = described payload input
summary_of (some (number n)) payload input = described payload input
summary_of (some (object fs)) payload input = described payload input
summary_of none payload input = described payload input

unfoldable pub tool_summary : Json → Text
unfolding short
tool_summary payload = elim (as_string (get "traceTitle" payload)) [
  | some title ↦ short title
  | none ↦
      let input = or_else (get "input" payload) null in
      summary_of (or_nullish (get "command" payload) (get "command" input)) payload input
]

abbrev pub tool_call_fields : List String
tool_call_fields = "id" ∷ "tool_use_id" ∷ "name" ∷ "status" ∷ "is_error" ∷ "exit_code" ∷ []

abbrev pub tool_result_fields : List String
tool_result_fields = "id" ∷ "tool_use_id" ∷ "status" ∷ "is_error" ∷ "exit_code" ∷ []

abbrev pub with_member : String → Option Json → Members → Members
with_member name none fs = fs
with_member name (some v) fs = field name v fs

-- The listed members of a payload, then `rest`.
abbrev pub selected : List String → Json → Members → Members
selected [] payload rest = rest
selected (name ∷ names) payload rest =
    with_member name (get name payload) (selected names payload rest)

abbrev pub with_payload : AgentEvent → Json → AgentEvent
with_payload ev payload = record ev { payload = payload }

-- The event, with whether its details were deferred.
unfoldable pub defer_activity_event_details : AgentEvent → AgentEvent × Bool
unfolding tool_summary
defer_activity_event_details ev =
    if is_kind ev.kind tool_call
    then (
      with_payload ev (
          object (
            selected tool_call_fields ev.payload
              (field "traceTitle" (string (tool_summary ev.payload)) end))),
      true,
    )
    else if is_kind ev.kind tool_result
    then (with_payload ev (object (selected tool_result_fields ev.payload end)), true)
    else (ev, false)
