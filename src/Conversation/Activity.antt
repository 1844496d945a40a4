-- ===== src/Conversation/Activity.antt =====
-- What a conversation is doing: packages/shared/src/conversation-activity.ts. A message is its
-- identity and its status.
pub mod Ended
use palmagent.Common.{
  String, Text, codes, Bool, true, false, ◌&&◌, ◌||◌, not, Option, none, some, List, [], ◌∷◌, ◌==◌,
  list_eq, nat_eq, if◌then◌else◌, is_empty, includes, trim, is_some, any, keep,
}
use palmagent.Events.{
  status, output_image, assistant_text, tool_call, tool_result, question, approval_request, result,
  error, Json, get, as_string, says, spells_one,
}
use palmagent.Messages.Types.{Status, sending, queued, delivered, rejected, unknown, cancelled}
use palmagent.Conversation.Log.{
  LogItem, Content, prose, other, has_kind, payload, trace_image, user_message,
}

pub data TranscriptActivity : Type 0 where
  idle working output blocked ended : TranscriptActivity

-- `item.kind === "status" ? payload.subtype : undefined`
abbrev pub subtype : LogItem → Option Json
subtype item = if has_kind item status then get "subtype" (payload item) else none

abbrev pub is_boundary : LogItem → Bool
is_boundary item = spells_one (subtype item) ("dispatch" ∷ "followup" ∷ "turn_started" ∷ [])

abbrev pub is_end : LogItem → Bool
is_end item =
    has_kind item result
    || has_kind item error
    || says (subtype item) "process_exit"
    || says (subtype item) "stop"
    || says (subtype item) "error"

abbrev pub is_prompt : LogItem → Bool
is_prompt item = has_kind item question || has_kind item approval_request

abbrev pub is_resolution : LogItem → Bool
is_resolution item = spells_one (subtype item) ("answer" ∷ "approval" ∷ "input_resolved" ∷ [])

abbrev pub has_text : Content → Bool
has_text (prose agent text id phase) = not (is_empty (trim text))
has_text (other ev deferred) = false

abbrev pub is_output : LogItem → Bool
is_output item = has_text item.content || (has_kind item output_image && not (trace_image item))

abbrev pub is_work : LogItem → Bool
is_work item =
    has_kind item tool_call
    || has_kind item tool_result
    || trace_image item
    || says (subtype item) "reasoning"
    || says (subtype item) "steer"

abbrev pub is_blocked : TranscriptActivity → Bool
is_blocked blocked = true
is_blocked idle = false
is_blocked working = false
is_blocked output = false
is_blocked ended = false

abbrev pub is_ended : TranscriptActivity → Bool
is_ended ended = true
is_ended idle = false
is_ended working = false
is_ended output = false
is_ended blocked = false

abbrev pub moved : LogItem → TranscriptActivity → TranscriptActivity
moved item state = if is_output item then output else if is_work item then working else state

unfoldable pub advance : LogItem → TranscriptActivity → TranscriptActivity
unfolding spells_one
advance item state =
    if is_boundary item
    then working
    else if is_end item
    then ended
    else if is_ended state
    then state
    else if is_prompt item
    then blocked
    else if is_resolution item
    then (if is_blocked state then working else state)
    else if is_blocked state
    then state
    else moved item state

abbrev pub replay : List LogItem → TranscriptActivity → TranscriptActivity
replay [] state = state
replay (item ∷ items) state = replay items (advance item state)

abbrev pub acknowledges : LogItem → Bool
acknowledges item = user_message item || says (subtype item) "message_delivered"

abbrev pub add_id : Option Text → List Text → List Text
add_id none ids = ids
add_id (some id) ids = id ∷ ids

-- The identities of the messages that the log confirms; a set, of which only membership is asked.
abbrev pub acknowledged : List LogItem → List Text
acknowledged [] = []
acknowledged (item ∷ items) =
    let rest = acknowledged items in
    if acknowledges item then add_id (as_string (get "messageId" (payload item))) rest else rest

abbrev pub is_sending : Text × Status → Bool
is_sending (id, sending) = true
is_sending (id, queued) = false
is_sending (id, delivered) = false
is_sending (id, rejected) = false
is_sending (id, unknown) = false
is_sending (id, cancelled) = false

pub record Circumstances : Type 0 where
  pub projected : Option TranscriptActivity
  pub running : Bool
  pub loading : Bool
  pub blocked_input : Bool
  pub messages : List (Text × Status)

abbrev pub projected_or : Option TranscriptActivity → TranscriptActivity → TranscriptActivity
projected_or none state = state
projected_or (some p) state = p

abbrev pub unconfirmed : List Text → Text × Status → Bool
unconfirmed ids message = is_sending message && not (includes ids message.0)

unfoldable pub transcript_activity : List LogItem → Circumstances → TranscriptActivity
unfolding advance
transcript_activity log c =
    if c.blocked_input
    then blocked
    else if any (unconfirmed (acknowledged log)) c.messages
    then working
    else if c.loading || (not c.running && not (any is_sending c.messages))
    then idle
    else projected_or c.projected (replay log working)
