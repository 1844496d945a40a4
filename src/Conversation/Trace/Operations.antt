-- ===== src/Conversation/Trace/Operations.antt =====
-- Operations, their states and places: packages/shared/src/conversation-trace.ts.
use palmagent.Common.{
  ℕ, zero, suc, String, Text, Bool, true, false, ◌&&◌, ◌||◌, Option, List, [], ◌∷◌, ◌==◌, string_eq,
  nat_eq, list_eq, if◌then◌else◌, includes,
}
use palmagent.Events.{AgentKind, agent_eq, status, result, error, Json, get, says_one}
use palmagent.Conversation.Log.{LogItem, has_kind, payload}

pub data TraceState : Type 0 where
  running completed error_state interrupted unknown : TraceState

pub data TraceKind : Type 0 where
  tool reasoning progress event : TraceKind

pub record TraceOperation : Type 0 where
  pub key : ℕ
  pub title : Text
  pub kind : TraceKind
  pub state : TraceState
  pub members : List ℕ

abbrev pub is_running : TraceState → Bool
is_running running = true
is_running completed = false
is_running error_state = false
is_running interrupted = false
is_running unknown = false

abbrev pub subtype : LogItem → Option Json
subtype item = get "subtype" (payload item)

abbrev pub boundary : LogItem → Bool
boundary item =
    has_kind item status && says_one (subtype item) ("dispatch" ∷ "followup" ∷ "turn_started" ∷ [])

abbrev pub terminal : LogItem → Bool
terminal item =
    has_kind item result
    || has_kind item error
    || (has_kind item status && says_one (subtype item) ("process_exit" ∷ "stop" ∷ "error" ∷ []))

-- Task, agent, session and identity of a call.
abbrev pub CallKey : Type 0
CallKey = String × AgentKind × String × Text

abbrev pub same_call : CallKey → CallKey → Bool
same_call (t, a, s, i) (u, b, r, j) = (t == u) && ((a == b) && ((s == r) && (i == j)))

pub record Trace : Type 0 where
  pub operations : List TraceOperation
  pub calls : List (CallKey × ℕ)
  pub active : List ℕ

abbrev pub empty_trace : Trace
empty_trace = record { operations = []; calls = []; active = [] }

abbrev pub settle_state : Bool → TraceState → TraceState
settle_state cut running = if cut then interrupted else unknown
settle_state cut completed = completed
settle_state cut error_state = error_state
settle_state cut interrupted = interrupted
settle_state cut unknown = unknown

abbrev pub settle : Bool → TraceOperation → TraceOperation
settle cut op = record op { state = settle_state cut op.state }

-- The operations from the place `n` on, of which the active ones are settled.
abbrev pub settle_active : Bool → List ℕ → ℕ → List TraceOperation → List TraceOperation
settle_active cut active n [] = []
settle_active cut active n (op ∷ ops) =
    (if includes active n then settle cut op else op) ∷ settle_active cut active (suc n) ops

unfoldable pub finish : Bool → Trace → Trace
finish cut t = record {
  operations = settle_active cut t.active 0 t.operations;
  calls = [];
  active = [];
}

abbrev pub update_at :
    ℕ → (TraceOperation → TraceOperation) → List TraceOperation → List TraceOperation
update_at n f [] = []
update_at zero f (op ∷ ops) = f op ∷ ops
update_at (suc n) f (op ∷ ops) = op ∷ update_at n f ops
