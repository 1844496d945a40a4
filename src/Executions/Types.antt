-- ===== src/Executions/Types.antt =====
-- The rows of execution-store.ts and the types of packages/shared/src/executions.ts.
use palmagent.Common.{ℕ, String, Bool, true, false, ◌&&◌, Option, ◌==◌, string_eq, option_eq}

pub data AgentKind : Type 0 where
  claude codex : AgentKind

abbrev pub same_agent : AgentKind → AgentKind → Bool
same_agent claude claude = true
same_agent claude codex = false
same_agent codex claude = false
same_agent codex codex = true

-- `content` is the JSON of the fields that the store only keeps.
pub record ExecutionStart : Type 0 where
  pub task_id : String
  pub agent : AgentKind
  pub provider_home : Option String
  pub resume_id : Option String
  pub message_id : Option String
  pub content : String

-- Equality of the JSON of two parsed starts.
abbrev pub same_start : ExecutionStart → ExecutionStart → Bool
same_start a b =
    a.task_id == b.task_id
    && same_agent a.agent b.agent
    && a.provider_home == b.provider_home
    && a.resume_id == b.resume_id
    && a.message_id == b.message_id
    && a.content == b.content

pub data ExecutionState : Type 0 where
  queued starting running finished lost : ExecutionState

abbrev pub is_queued : ExecutionState → Bool
is_queued queued = true
is_queued starting = false
is_queued running = false
is_queued finished = false
is_queued lost = false

abbrev pub is_starting : ExecutionState → Bool
is_starting queued = false
is_starting starting = true
is_starting running = false
is_starting finished = false
is_starting lost = false

abbrev pub is_running : ExecutionState → Bool
is_running queued = false
is_running starting = false
is_running running = true
is_running finished = false
is_running lost = false

-- `state IN ('queued','starting','running')`
abbrev pub is_live : ExecutionState → Bool
is_live queued = true
is_live starting = true
is_live running = true
is_live finished = false
is_live lost = false

-- `state IN ('starting','running')`
abbrev pub is_busy : ExecutionState → Bool
is_busy queued = false
is_busy starting = true
is_busy running = true
is_busy finished = false
is_busy lost = false

pub record QuestionRequest : Type 0 where
  pub request_id : String
  pub body : String

pub record Answer : Type 0 where
  pub request_id : String
  pub body : String

-- An event of a turn. `status` is any status but a resolved input.
pub data Event : Type 0 where
  asked : QuestionRequest → Event
  input_resolved : String → Event
  answered : Answer → Event
  status : String → Event
  other : String → Event

pub record ExecutionRecord : Type 0 where
  pub id : String
  pub release : String
  pub node : String
  pub skills : Option String
  pub args : ExecutionStart
  pub state : ExecutionState
  pub owner_key : String
  pub process : Option (ℕ × String)
  pub question : Option QuestionRequest
  pub last_seq : ℕ

pub data ExecutionCommand : Type 0 where
  answer : Answer → ExecutionCommand
  send steer approve : String → ExecutionCommand
  interrupt cancel : ExecutionCommand

abbrev pub same_command : ExecutionCommand → ExecutionCommand → Bool
same_command (answer a) (answer b) = a.request_id == b.request_id && a.body == b.body
same_command (send a) (send b) = a == b
same_command (steer a) (steer b) = a == b
same_command (approve a) (approve b) = a == b
same_command interrupt interrupt = true
same_command cancel cancel = true
same_command _ _ = false

pub data CommandResult : Type 0 where
  accepted delivered rejected unknown : CommandResult

abbrev pub is_accepted : CommandResult → Bool
is_accepted accepted = true
is_accepted delivered = false
is_accepted rejected = false
is_accepted unknown = false

abbrev pub is_delivered : CommandResult → Bool
is_delivered accepted = false
is_delivered delivered = true
is_delivered rejected = false
is_delivered unknown = false

abbrev pub is_rejected : CommandResult → Bool
is_rejected accepted = false
is_rejected delivered = false
is_rejected rejected = true
is_rejected unknown = false

pub record CommandRecord : Type 0 where
  pub execution : String
  pub id : String
  pub body : ExecutionCommand
  pub result : CommandResult
  pub claimed : Bool

pub record EventRecord : Type 0 where
  pub execution : String
  pub seq : ℕ
  pub event : Event
