-- ===== src/Routines/Types.antt =====
-- The data of routines: packages/shared/src/task.ts, packages/shared/src/routine-policy.ts and
-- apps/server/src/modules/routines/application/ports/outbound/routines.ts.
use palmagent.Common.{ℕ, String, Bool, true, false, Option}
use palmagent.Routines.Cron.{RoutinePreset, manual, custom}

pub data AgentKind : Type 0 where
  claude codex : AgentKind

pub data RoutineKind : Type 0 where
  agent script : RoutineKind

pub record RoutineScript : Type 0 where
  pub command : String
  pub timeout_seconds : Option ℕ

pub record Routine : Type 0 where
  pub kind : RoutineKind
  pub script : Option RoutineScript
  pub id : String
  pub repo_id : String
  pub agent : AgentKind
  pub title : Option String
  pub prompt : String
  pub permission : String
  pub model : Option String
  pub effort : Option String
  pub preset : RoutinePreset
  pub schedule : String
  pub enabled : Bool
  pub last_run_at : Option ℕ
  pub next_run_at : Option ℕ
  pub created_at : ℕ
  pub updated_at : ℕ

pub data RunStatus : Type 0 where
  fired manual_run skipped running succeeded failed interrupted : RunStatus

pub record RoutineRun : Type 0 where
  pub id : ℕ
  pub routine_id : String
  pub fired_at : ℕ
  pub status : RunStatus
  pub finished_at : Option ℕ
  pub exit_code : Option ℕ
  pub output : Option String
  pub worktree_path : Option String
  pub task_id : Option String
  pub missed_while_down : Bool
  pub note : Option String

pub record ScriptResult : Type 0 where
  pub status : RunStatus
  pub note : Option String
  pub finished_at : Option ℕ
  pub exit_code : Option ℕ
  pub output : Option String
  pub worktree_path : Option String

abbrev pub script_concurrency : ℕ
script_concurrency = 4

abbrev pub default_timeout_seconds : ℕ
default_timeout_seconds = 300

abbrev pub is_script : RoutineKind → Bool
is_script script = true
is_script agent = false

abbrev pub is_manual : RoutinePreset → Bool
is_manual manual = true
is_manual _ = false

abbrev pub is_custom : RoutinePreset → Bool
is_custom custom = true
is_custom _ = false

abbrev pub default_permission : AgentKind → String
default_permission claude = "acceptEdits"
default_permission codex = "workspace-write"
