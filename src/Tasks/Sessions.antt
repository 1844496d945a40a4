-- ===== src/Tasks/Sessions.antt =====
-- Events imported from a session that another client shares: `importSessionEvents` of
-- apps/server/src/modules/tasks/adapters/outbound/sqlite-tasks.ts. `hash` is SHA-256; texts are UTF-16
-- code units.
pub mod Prefixes
use palmagent.Common.{
  ℕ, zero, suc, ◌+◌, String, Text, Bool, true, false, ◌||◌, ◌&&◌, not, Option, none, some, List, [],
  ◌∷◌, ◌++◌, ◌==◌, string_eq, nat_eq, option_eq, find, any, modify, take, drop, length, ltb,
  is_some, is_none, is_empty, or_else, if◌then◌else◌, unexpected, Failure, Result, ok, err, ◌>>=◌,
  ◌>>◌, refuse_if,
}
use palmagent.Events.{
  AgentEvent, AgentEventKind, assistant_text, is_kind, Json, object, string, Members, end, field,
  get, as_string,
}
use palmagent.Tasks.Types.{TaskState, EventLine, EventRow, Import}
use palmagent.Tasks.Store.{Store, find_row, set_session_control, touch_task, missing_task}
use palmagent.Tasks.Events.{insert_events, projected}

abbrev pub is_import : String → String → Import → Bool
is_import id source row = (row.task_id == id) && (row.source_id == source)

abbrev pub identity_row : String → String → Import
identity_row id source = record {
  task_id = id;
  source_id = source;
  text_length = none;
  text_hash = none;
}

abbrev pub text_row : String → String → ℕ → String → Import
text_row id source length hash = record {
  task_id = id;
  source_id = source;
  text_length = some length;
  text_hash = some hash;
}

-- `INSERT ... ON CONFLICT DO UPDATE`
abbrev pub upsert : Import → List Import → List Import
upsert row rows =
    if any (is_import row.task_id row.source_id) rows
    then modify (is_import row.task_id row.source_id) (λ _. row) rows
    else rows ++ row ∷ []

-- `{ ...payload, text }`
abbrev pub with_text : Text → Members → Members
with_text text end = field "text" (string text) end
with_text text (field name v fs) =
    let rest = with_text text fs in
    if name == "text" then field "text" (string text) fs else field name v rest

abbrev pub payload_with : Text → Json → Json
payload_with text (object fs) = object (with_text text fs)
payload_with text (string s) = object (field "text" (string text) end)
payload_with text Json.null = object (field "text" (string text) end)
payload_with text (Json.boolean b) = object (field "text" (string text) end)
payload_with text (Json.number n) = object (field "text" (string text) end)
payload_with text (Json.array xs) = object (field "text" (string text) end)

abbrev pub changed_text : Failure
changed_text = unexpected "Shared session text changed before its imported prefix"

-- The text of an event of text, which its type gives.
abbrev pub text_of : AgentEvent → Text
text_of ev = or_else (as_string (get "text" ev.payload)) []

abbrev pub prefix_of : Option Import → Option (ℕ × String)
prefix_of none = none
prefix_of (some row) = some (or_else row.text_length 0, or_else row.text_hash "")

abbrev pub added : Option AgentEvent → List AgentEvent → List AgentEvent
added none evs = evs
added (some ev) evs = ev ∷ evs

module _ (hash : Text → String) where
  -- A snapshot against the prefix that was imported: the new part, or nothing new.
  unfoldable pub fresh_text : Option (ℕ × String) → Text → Result (Option Text)
  fresh_text none text = ok (if is_empty text then none else some text)
  fresh_text (some (prefix, digest)) text =
      if ltb (length text) prefix
      then ok none
      else if not (hash (take prefix text) == digest)
      then err changed_text
      else ok (if length text == prefix then none else some (drop prefix text))

  -- What is new of one event, and the rows of imports after it.
  abbrev pub taken :
      String
      → String
      → Text
      → AgentEvent
      → List Import
      → Option Text
      → Option AgentEvent × List Import
  taken id source text ev rows none = (none, rows)
  taken id source text ev rows (some new) = (
    some (record ev { payload = payload_with new ev.payload }),
    upsert (text_row id source (length text) (hash text)) rows,
  )

  unfoldable pub import_text :
      String → String → AgentEvent → List Import → Result (Option AgentEvent × List Import)
  unfolding fresh_text
  import_text id source ev rows =
      fresh_text (prefix_of (find (is_import id source) rows)) (text_of ev) >>= λ new.
      ok (taken id source (text_of ev) ev rows new)

  unfoldable pub import_event :
      String → String → AgentEvent → List Import → Result (Option AgentEvent × List Import)
  unfolding import_text
  import_event id source ev rows =
      if is_kind ev.kind assistant_text
      then import_text id source ev rows
      else ok (
          if any (is_import id source) rows
          then (none, rows)
          else (some ev, rows ++ identity_row id source ∷ []))

  -- The events that are new, in order; the lists have one length.
  unfoldable pub import_events :
      String → List AgentEvent → List String → List Import → Result (List AgentEvent × List Import)
  unfolding import_event
  import_events id [] sources rows = ok ([], rows)
  import_events id (ev ∷ evs) [] rows = ok ([], rows)
  import_events id (ev ∷ evs) (source ∷ sources) rows = import_event id source ev rows >>= λ first.
      import_events id evs sources first.1 >>= λ rest. ok (added first.0 rest.0, rest.1)

abbrev pub lengths_differ : List AgentEvent → Option (List String) → Bool
lengths_differ evs none = false
lengths_differ evs (some sources) = not (length sources == length evs)

-- The whole import, with what it leaves of the store. An import of no event at all may still write the
-- control of the session.
module _ {C : Type 0} (hash : Text → String) (parse : Text → Option Json) (now : ℕ)
    (update : String → List EventLine → C → C) where
  unfoldable pub activity : String → List AgentEvent → Store C → Store C
  unfolding touch_task
  activity id fresh s = if is_empty fresh then s else touch_task id now s

  unfoldable pub imported :
      TaskState → List AgentEvent × List Import → Store C → List EventRow × Store C
  unfolding touch_task set_session_control
  imported t (fresh, rows) s =
      let outcome = insert_events t.task_id fresh (record s { imports = rows }) in
      (
        outcome.0,
        activity t.task_id fresh (
            set_session_control t.task_id t.session_control
              (projected parse now update t.task_id fresh outcome.1)),
      )

  unfoldable pub fresh_events :
      TaskState
      → List AgentEvent
      → Option (List String)
      → Store C
      → Result (List AgentEvent × List Import)
  unfolding import_events
  fresh_events t evs none s = ok (evs, s.imports)
  fresh_events t evs (some sources) s = import_events hash t.task_id evs sources s.imports

  -- One transaction, for a task that is there.
  unfoldable pub import_session_events :
      TaskState
      → List AgentEvent
      → Option (List String)
      → Store C
      → Result (List EventRow × Store C)
  unfolding import_events touch_task set_session_control
  import_session_events t evs sources s =
      refuse_if (lengths_differ evs sources)
        (unexpected "Session event identities must match the event batch")
      >> refuse_if (is_none (find_row t.task_id s)) missing_task
      >> (fresh_events t evs sources s >>= λ fresh. ok (imported t fresh s))
