-- ===== src/Tasks/Types.antt =====
-- The rows of the task store and the states made of them: packages/shared/src/task.ts and the row
-- types of apps/server/src/modules/tasks/adapters/outbound/sqlite-tasks.ts. A column that holds JSON
-- holds the value here. Skills, the control of a session and the pending requests, which the store
-- passes on without reading them, are carried as their JSON text.
use palmagent.Common.{ℕ, String, Text, Bool, true, false, Option, List}
use palmagent.Events.{AgentKind, AgentEventKind, AgentEvent, Json}
use palmagent.Tasks.Prs.{PrRef}

pub data TaskStatus : Type 0 where
  queued running awaiting_approval awaiting_input : TaskStatus
  idle archived failed cancelled : TaskStatus

abbrev pub is_active_task_status : TaskStatus → Bool
is_active_task_status queued = true
is_active_task_status running = true
is_active_task_status awaiting_approval = true
is_active_task_status awaiting_input = true
is_active_task_status idle = false
is_active_task_status archived = false
is_active_task_status failed = false
is_active_task_status cancelled = false

abbrev pub is_closed_task_status : TaskStatus → Bool
is_closed_task_status cancelled = true
is_closed_task_status archived = true
is_closed_task_status queued = false
is_closed_task_status running = false
is_closed_task_status awaiting_approval = false
is_closed_task_status awaiting_input = false
is_closed_task_status idle = false
is_closed_task_status failed = false

abbrev pub needs_task_attention : TaskStatus → Bool
needs_task_attention awaiting_input = true
needs_task_attention awaiting_approval = true
needs_task_attention queued = false
needs_task_attention running = false
needs_task_attention idle = false
needs_task_attention archived = false
needs_task_attention failed = false
needs_task_attention cancelled = false

abbrev pub is_archived : TaskStatus → Bool
is_archived archived = true
is_archived queued = false
is_archived running = false
is_archived awaiting_approval = false
is_archived awaiting_input = false
is_archived idle = false
is_archived failed = false
is_archived cancelled = false

pub record ContextUsage : Type 0 where
  pub used_tokens : ℕ
  pub window_tokens : Option ℕ
  pub updated_at : ℕ
  pub stale : Bool

pub record TaskState : Type 0 where
  pub task_id : String
  pub pinned_at : Option ℕ
  pub context_usage : Option ContextUsage
  pub repo_id : String
  pub agent : AgentKind
  pub title : Option Text
  pub skills : Option (List String)
  pub prompt : Text
  pub status : TaskStatus
  pub interrupted : Bool
  pub session_id : Option String
  pub session_control : Option String
  pub branch : Option String
  pub worktree_path : Option String
  pub prs : Option (List PrRef)
  pub pr_url : Option Text
  pub pending_input : Option String
  pub pending_approval : Option String
  pub permission : String
  pub model : Option String
  pub effort : Option String
  pub created_at : ℕ
  pub updated_at : ℕ
  pub last_activity_at : ℕ

-- The column `pr_urls`: a list, or a text that is no JSON list.
pub data PrColumn : Type 0 where
  listed : List PrRef → PrColumn
  unreadable : PrColumn

-- A row of `tasks`, with its entry of `task_context_usage`.
pub record TaskRow : Type 0 where
  pub id : String
  pub repo_id : String
  pub agent : AgentKind
  pub title : Option Text
  pub prompt : Text
  pub pinned_at : Option ℕ
  pub status : TaskStatus
  pub interrupted : ℕ
  pub session_id : Option String
  pub branch : Option String
  pub worktree_path : Option String
  pub permission : String
  pub model : Option String
  pub effort : Option String
  pub session_control : Option String
  pub skills_json : Option (List String)
  pub pr_url : Option Text
  pub pr_urls : Option PrColumn
  pub pending_input : Option String
  pub pending_approval : Option String
  pub created_at : ℕ
  pub updated_at : ℕ
  pub last_activity_at : ℕ
  pub last_raw_seq : ℕ
  pub context_usage : Option ContextUsage

-- A row of `events`.
pub record EventLine : Type 0 where
  pub id : ℕ
  pub seq : ℕ
  pub task_id : String
  pub kind : AgentEventKind
  pub payload : Json
  pub ts : ℕ

-- An event as the store gives it out.
pub record EventRow : Type 0 where
  pub id : ℕ
  pub seq : ℕ
  pub event : AgentEvent

-- A row of `session_imports`; the length and the hash are of texts only.
pub record Import : Type 0 where
  pub task_id : String
  pub source_id : String
  pub text_length : Option ℕ
  pub text_hash : Option String
