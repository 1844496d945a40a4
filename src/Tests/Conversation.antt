-- ===== src/Tests/Conversation.antt =====
-- A short conversation with a tool call that is cut off, and the theorems on conversations applied
-- to it.
use palmagent.Common.{any, ℕ, ◌≡◌, refl, Text, codes, true, false, none, List, [], ◌∷◌, ◌++◌, arith}
use palmagent.Events.{
  spells_one, AgentEvent, AgentEventKind, codex, assistant_text, tool_call, status, result, string,
  object, Members, end, field,
}
use palmagent.Conversation.Log.{LogItem, other, user_message}
use palmagent.Conversation.Log.Order.{append_all, all_atoms, atoms, Ordered, append_all_complete}
use palmagent.Conversation.Activity.{working, ended, replay}
use palmagent.Conversation.Activity.Ended.{replay_ended}
use palmagent.Conversation.Projection.{Projected, project_conversation, project_conversation-shows}
use palmagent.Conversation.Transcript.{compact, present_transcript}
use palmagent.Conversation.Transcript.Prompts.{by_user, shows, present_transcript-shows}
use palmagent.Conversation.Trace.{trace_operations}
use palmagent.Conversation.Trace.Settled.{AllSettled, trace_operations-AllSettled}

abbrev event : AgentEventKind → Members → AgentEvent
event kind members = record {
  task_id = "task";
  agent = codex;
  kind = kind;
  session_id = none;
  payload = object members;
  ts = 5;
}

abbrev dispatch : AgentEvent
dispatch = event status (field "subtype" (string (codes "dispatch")) end)

abbrev call : AgentEvent
call = event tool_call (field "id" (string (codes "c1")) (field "name" (string (codes "Read")) end))

abbrev prose : Text → AgentEvent
prose text = event assistant_text (field "text" (string text) end)

abbrev finished : AgentEvent
finished = event result end

abbrev rows : List (AgentEvent × ℕ)
rows = (dispatch, 1) ∷ (prose (codes "Hel"), 2) ∷ (prose (codes "lo"), 3) ∷ (call, 4) ∷ []

append_all_complete_example :
    Ordered 0 (append_all rows []) × (atoms (append_all rows []) ≡ all_atoms rows)
append_all_complete_example =
    append_all_complete rows (omega arith, (omega arith, (omega arith, (omega arith, tt))))

abbrev item : ℕ → AgentEvent → LogItem
item key ev = record { key = key; end_seq = none; content = other ev false }

abbrev before : List LogItem
before = item 1 dispatch ∷ item 4 call ∷ []

replay_ended_example : replay (before ++ item 5 finished ∷ item 6 call ∷ []) working ≡ ended
unfolding spells_one
replay_ended_example =
    replay_ended before (item 6 call ∷ []) (item 5 finished) working refl refl refl

trace_operations-AllSettled_example :
    AllSettled (trace_operations before false)
    × AllSettled (trace_operations (before ++ item 5 finished ∷ []) true)
trace_operations-AllSettled_example = trace_operations-AllSettled before (item 5 finished) refl

present_transcript-shows_example :
    any (shows 1) (present_transcript (item 1 dispatch ∷ item 4 call ∷ []) compact true) ≡ true
unfolding user_message spells_one
present_transcript-shows_example =
    present_transcript-shows compact [] (item 4 call ∷ []) (item 1 dispatch) true refl
      (by_user refl)

project_conversation-shows_example :
    any
      (λ (p : Projected). shows 1 p.row)
      (project_conversation (item 1 dispatch ∷ item 4 call ∷ []) true)
    ≡ true
unfolding user_message spells_one
project_conversation-shows_example =
    project_conversation-shows [] (item 4 call ∷ []) (item 1 dispatch) true refl (by_user refl)
