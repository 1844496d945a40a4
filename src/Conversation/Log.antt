-- ===== src/Conversation/Log.antt =====
-- The log of a conversation and what its items are: `appendHistoryEvent` and the tests on items of
-- packages/shared/src/conversation.ts.
pub mod Order
use palmagent.Common.{
  ends_with, ℕ, zero, suc, ◌+◌, ◌-◌, String, Text, codes, Bool, true, false, ◌&&◌, ◌||◌, not,
  Option, none, some, List, [], ◌∷◌, ◌++◌, ◌==◌, nat_eq, option_eq, list_eq, if◌then◌else◌, is_some,
  or_else, length, starts_with, trim, leb,
}
use palmagent.Events.{
  AgentKind, codex, agent_eq, AgentEvent, AgentEventKind, status, output_image, assistant_text,
  tool_call, tool_result, question, approval_request, result, error, is_kind, Json, null, get,
  as_string, is_true, says, is_nonzero, spells_one,
}

pub data AssistantPhase : Type 0 where
  progress partial final : AssistantPhase

abbrev pub phase_beq : AssistantPhase → AssistantPhase → Bool
phase_beq progress progress = true
phase_beq partial partial = true
phase_beq final final = true
phase_beq progress partial = false
phase_beq progress final = false
phase_beq partial progress = false
phase_beq partial final = false
phase_beq final progress = false
phase_beq final partial = false

abbrev pub same_phase : Option AssistantPhase → Option AssistantPhase → Bool
same_phase none none = true
same_phase none (some q) = false
same_phase (some p) none = false
same_phase (some p) (some q) = phase_beq p q

-- An item is prose, or an event of another kind.
pub data Content : Type 0 where
  prose : AgentKind → Text → Option Text → Option AssistantPhase → Content
  other : AgentEvent → Bool → Content

pub record LogItem : Type 0 where
  pub key : ℕ
  pub end_seq : Option ℕ
  pub content : Content

-- The kind of an item.
abbrev pub kind_of : Content → AgentEventKind
kind_of (prose agent text id phase) = assistant_text
kind_of (other ev deferred) = ev.kind

abbrev pub has_kind : LogItem → AgentEventKind → Bool
has_kind item kind = is_kind (kind_of item.content) kind

-- `payload(item)`; `get` finds nothing in a value that is no object.
abbrev pub payload_of : Content → Json
payload_of (prose agent text id phase) = null
payload_of (other ev deferred) = ev.payload

abbrev pub payload : LogItem → Json
payload item = payload_of item.content

-- Whether the first place at which `t` stands in `s` is its end.
abbrev pub first_at_end : Text → Text → Bool
first_at_end t [] = t == []
first_at_end t (c ∷ s) = if starts_with (c ∷ s) t then (c ∷ s) == t else first_at_end t s

abbrev pub context_text : Option Text → Bool
context_text none = false
context_text (some raw) =
    let text = trim raw in
    starts_with text (codes "<environment_context>")
    && (ends_with text (codes "</environment_context>")
        && first_at_end (codes "</environment_context>") text)

unfoldable pub is_native_environment_context : AgentEvent → Bool
is_native_environment_context ev =
    (ev.agent == codex)
    && (is_kind ev.kind status
        && (says (get "subtype" ev.payload) "followup"
            && (says (get "source" ev.payload) "local"
                && context_text (as_string (get "text" ev.payload)))))

abbrev pub phase_of : Option Json → Option AssistantPhase
phase_of v =
    if says v "progress"
    then some progress
    else if says v "partial"
    then some partial
    else if says v "final"
    then some final
    else none

-- Prose goes on in the item before it: of the same agent and message, or, without a message, of the
-- same phase.
abbrev pub joins : AgentKind → Option Text → Option AssistantPhase → Content → Bool
joins agent id phase (prose a t i p) =
    (a == agent) && ((i == id) && (is_some id || same_phase p phase))
joins agent id phase (other ev deferred) = false

abbrev pub extended : Text → Content → Content
extended text (prose a t i p) = prose a (t ++ text) i p
extended text (other ev deferred) = other ev deferred

abbrev pub prose_item : ℕ → AgentKind → Text → Option Text → Option AssistantPhase → LogItem
prose_item seq agent text id phase = record {
  key = seq;
  end_seq = some seq;
  content = prose agent text id phase;
}

-- `items.at(-1)` takes the text, or a new item follows it.
abbrev pub push_prose :
    ℕ → AgentKind → Text → Option Text → Option AssistantPhase → List LogItem → List LogItem
push_prose seq agent text id phase [] = prose_item seq agent text id phase ∷ []
push_prose seq agent text id phase (x ∷ []) =
    if joins agent id phase x.content
    then record x { end_seq = some seq; content = extended text x.content } ∷ []
    else x ∷ prose_item seq agent text id phase ∷ []
push_prose seq agent text id phase (x ∷ y ∷ ys) = x ∷ push_prose seq agent text id phase (y ∷ ys)

abbrev pub event_text : AgentEvent → Text
event_text ev = or_else (as_string (get "text" ev.payload)) []

unfoldable pub append_history_event : AgentEvent → ℕ → Bool → List LogItem → List LogItem
unfolding is_native_environment_context
append_history_event ev seq deferred items =
    if is_native_environment_context ev
    then items
    else if is_kind ev.kind assistant_text
    then push_prose seq ev.agent (event_text ev) (as_string (get "messageId" ev.payload))
        (phase_of (get "phase" ev.payload)) items
    else items ++ record { key = seq; end_seq = some seq; content = other ev deferred } ∷ []

abbrev pub trace_image : LogItem → Bool
trace_image item = has_kind item output_image && not (says (get "source" (payload item)) "message")

abbrev pub starts_error : Option Text → Bool
starts_error none = false
starts_error (some s) = starts_with s (codes "error")

unfoldable pub failed : LogItem → Bool
failed item =
    let p = payload item in
    has_kind item error
    || is_true (get "is_error" p)
    || says (get "status" p) "failed"
    || is_nonzero (get "exit_code" p)
    || (has_kind item status
        && (says (get "subtype" p) "process_exit" && is_nonzero (get "code" p)))
    || (has_kind item result && starts_error (as_string (get "subtype" p)))

unfoldable pub user_message : LogItem → Bool
unfolding spells_one
user_message item =
    has_kind item status
    && spells_one (get "subtype" (payload item)) ("dispatch" ∷ "followup" ∷ "steer" ∷ "answer" ∷ [])
