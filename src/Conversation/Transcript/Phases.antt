-- ===== src/Conversation/Transcript/Phases.antt =====
-- The phases of a turn's messages: `flush` within `presentTranscript` of
-- packages/shared/src/conversation.ts.
use palmagent.Common.{
  ℕ, Text, Bool, true, false, Option, none, some, List, [], ◌∷◌, ◌++◌, ◌==◌, nat_eq, option_eq,
  list_eq, if◌then◌else◌, is_some, trim,
}
use palmagent.Events.{get, as_string, says}
use palmagent.Conversation.Log.{
  AssistantPhase, progress, partial, final, Content, prose, other, LogItem, payload, phase_of,
}

-- `phases`: the first classification of a message.
abbrev pub Phases : Type 0
Phases = List (Text × Option AssistantPhase)

abbrev pub find_phase : Text → Phases → Option (Option AssistantPhase)
find_phase id [] = none
find_phase id ((i, p) ∷ ps) = let rest = find_phase id ps in if i == id then some p else rest

abbrev pub classify : Text → Option AssistantPhase → Phases → Phases
classify id p ps = if is_some (find_phase id ps) then ps else ps ++ (id, p) ∷ []

abbrev pub prose_phase : Content → Phases → Phases
prose_phase (prose agent t (some (c ∷ id)) p) ps = classify (c ∷ id) p ps
prose_phase (prose agent t (some []) p) ps = ps
prose_phase (prose agent t none p) ps = ps
prose_phase (other ev deferred) ps = ps

abbrev pub marker_phase : Option Text → Option AssistantPhase → Phases → Phases
marker_phase (some id) (some p) ps = classify id (some p) ps
marker_phase (some id) none ps = ps
marker_phase none p ps = ps

abbrev pub item_phases : LogItem → Phases → Phases
item_phases item ps =
    let p = payload item in
    let marked = prose_phase item.content ps in
    if says (get "subtype" p) "assistant_message"
    then marker_phase (as_string (get "messageId" p)) (phase_of (get "phase" p)) marked
    else marked

abbrev pub phases_of : List LogItem → Phases → Phases
phases_of [] ps = ps
phases_of (item ∷ items) ps = phases_of items (item_phases item ps)

abbrev pub flatten : Option (Option AssistantPhase) → Option AssistantPhase
flatten none = none
flatten (some p) = p

abbrev pub content_phase : Phases → Content → Option AssistantPhase
content_phase ps (prose agent t (some (c ∷ id)) p) = flatten (find_phase (c ∷ id) ps)
content_phase ps (prose agent t (some []) p) = p
content_phase ps (prose agent t none p) = p
content_phase ps (other ev deferred) = none

abbrev pub is_progress : Option AssistantPhase → Bool
is_progress (some progress) = true
is_progress (some partial) = false
is_progress (some final) = false
is_progress none = false

abbrev pub in_progress : Phases → LogItem → Bool
in_progress ps item = is_progress (content_phase ps item.content)

abbrev pub prose_of : Content → Option Text
prose_of (prose agent t id p) = some t
prose_of (other ev deferred) = none

-- The key of the latest progress.
abbrev pub latest_progress : Phases → List LogItem → Option ℕ
latest_progress ps [] = none
latest_progress ps (item ∷ items) = elim (latest_progress ps items) [
  | some k ↦ some k
  | none ↦ if in_progress ps item then some item.key else none
]

-- The texts of the turn that are no progress.
abbrev pub answer_texts : Phases → List LogItem → List Text
answer_texts ps [] = []
answer_texts ps (item ∷ items) = elim (prose_of item.content) [
  | some t ↦ if in_progress ps item then answer_texts ps items else trim t ∷ answer_texts ps items
  | none ↦ answer_texts ps items
]
