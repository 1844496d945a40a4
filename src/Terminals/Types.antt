-- ===== src/Terminals/Types.antt =====
-- The data of persistent shells: packages/shared/src/terminals.ts and
-- apps/server/src/modules/terminals/domain/terminal.ts.
use Prim.Native.Nat.{min, max}
use palmagent.Common.{ℕ, String, Bool, true, false, Option, some}

pub data StartError : Type 0 where
  services_unavailable launch_unconfirmed startup_timeout host_exited initialization_failed :
      StartError

pub data TerminalState : Type 0 where
  starting running closing exited lost : TerminalState

pub record TerminalRecord : Type 0 where
  pub id : String
  pub task_id : Option String
  pub repo_id : String
  pub title : String
  pub initial_cwd : String
  pub state : TerminalState
  pub created_at : ℕ
  pub exit_code : Option ℕ
  pub protocol : ℕ
  pub start_error : Option String
  pub start_error_code : Option StartError
  pub diagnostic : Bool
  pub diagnostic_cleanup_failed : Bool
  pub request_id : String
  pub release : String
  pub node : String
  pub directory : String
  pub cols : ℕ
  pub rows : ℕ
  pub pid : Option ℕ
  pub identity : Option String

-- `Omit<TerminalRecord, "id" | "createdAt" | "state" | "protocol">`
pub record Reservation : Type 0 where
  pub task_id : Option String
  pub repo_id : String
  pub title : String
  pub initial_cwd : String
  pub diagnostic : Bool
  pub request_id : String
  pub release : String
  pub node : String
  pub directory : String
  pub cols : ℕ
  pub rows : ℕ

pub record TerminalSession : Type 0 where
  pub id : String
  pub task_id : Option String
  pub repo_id : String
  pub title : String
  pub initial_cwd : String
  pub state : TerminalState
  pub created_at : ℕ
  pub exit_code : Option ℕ
  pub protocol : ℕ
  pub start_error : Option String
  pub start_error_code : Option StartError

abbrev pub public_terminal : TerminalRecord → TerminalSession
public_terminal r = record {
  id = r.id;
  task_id = r.task_id;
  repo_id = r.repo_id;
  title = r.title;
  initial_cwd = r.initial_cwd;
  state = r.state;
  created_at = r.created_at;
  exit_code = r.exit_code;
  protocol = r.protocol;
  start_error = r.start_error;
  start_error_code = r.start_error_code;
}

abbrev pub active_state : TerminalState → Bool
active_state starting = true
active_state running = true
active_state closing = true
active_state _ = false

abbrev pub active : TerminalRecord → Bool
active r = active_state r.state

abbrev pub is_starting : TerminalState → Bool
is_starting starting = true
is_starting _ = false

abbrev pub is_timeout : Option StartError → Bool
is_timeout (some startup_timeout) = true
is_timeout _ = false

abbrev pub startup_timeout_ms : ℕ
startup_timeout_ms = 30000

abbrev pub terminal_protocol : ℕ
terminal_protocol = 1

abbrev pub min_cols : ℕ
min_cols = 2

abbrev pub max_cols : ℕ
max_cols = 500

abbrev pub min_rows : ℕ
min_rows = 1

abbrev pub max_rows : ℕ
max_rows = 200

-- The size that a client asks for, brought into range.
unfoldable pub terminal_size : ℕ → ℕ → ℕ × ℕ
terminal_size cols rows = (max min_cols (min max_cols cols), max min_rows (min max_rows rows))

pub data Target : Type 0 where
  task : String → Target
  repo : String → Target

pub record CreateTerminalRequest : Type 0 where
  pub request_id : String
  pub target : Target
  pub title : Option String
  pub cols : ℕ
  pub rows : ℕ
