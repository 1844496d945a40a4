-- ===== src/Conversation/Transcript.antt =====
-- The rows of a transcript: `presentTranscript` of packages/shared/src/conversation.ts. A row has a
-- place of its own, by which the code's references to it are written; the keys of a log's items are
-- distinct, so an item is known by its key.
pub mod Work
pub mod Phases
pub mod Rows
pub mod Flush
pub mod Keeps
pub mod Prompts
use palmagent.Common.{
  ℕ, Text, Bool, true, false, ◌&&◌, ◌||◌, not, Option, none, some, List, [], ◌∷◌, ◌++◌, map, keep,
  if◌then◌else◌,
}
use palmagent.Events.{status, question, approval_request, result, get, says, spells_one}
use palmagent.Conversation.Log.{LogItem, has_kind, payload, user_message}
use palmagent.Conversation.Transcript.Rows.{
  Row, message, Transcript, empty_transcript, add_row, forget_failure, add_to_turn, rows_of,
}
use palmagent.Conversation.Transcript.Flush.{flush}

abbrev pub is_compacted : LogItem → Bool
is_compacted item = has_kind item status && says (get "subtype" (payload item)) "context_compacted"

-- A new request or a provider's turn start makes the error of the run before it historical.
abbrev pub starts_run : LogItem → Bool
starts_run item =
    has_kind item status
    && spells_one (get "subtype" (payload item)) ("dispatch" ∷ "followup" ∷ "turn_started" ∷ [])

abbrev pub stands_alone : LogItem → Bool
stands_alone item = user_message item || has_kind item question || has_kind item approval_request

abbrev pub begun : LogItem → Transcript → Transcript
begun item t = if starts_run item then forget_failure (flush false t) else t

abbrev pub alone : LogItem → Transcript → Transcript
alone item t = add_row (message item.key item) (flush false t)

abbrev pub turned : LogItem → Transcript → Transcript
turned item t =
    let joined = add_to_turn item t in if has_kind item result then flush false joined else joined

abbrev pub started : LogItem → Transcript → Transcript
started item t =
    if has_kind item status && says (get "subtype" (payload item)) "turn_started"
    then flush false t
    else t

unfoldable pub present_item : LogItem → Transcript → Transcript
present_item item t =
    if is_compacted item
    then flush false t
    else if stands_alone item
    then alone item (begun item t)
    else turned item (started item (begun item t))

abbrev pub present_items : List LogItem → Transcript → Transcript
present_items [] t = t
present_items (item ∷ items) t = present_items items (present_item item t)

pub data OutputMode : Type 0 where
  compact verbose : OutputMode

abbrev pub message_row : LogItem → Row
message_row item = message item.key item

unfoldable pub present_transcript : List LogItem → OutputMode → Bool → List Row
unfolding present_item
present_transcript log verbose live = map message_row (keep (λ item. not (is_compacted item)) log)
present_transcript log compact live = rows_of (flush live (present_items log empty_transcript)).rows
