-- ===== src/Terminals/Store.antt =====
-- apps/server/src/modules/terminals/adapters/outbound/sqlite-terminal-store.ts: the registry of
-- terminals. Each operation is one immediate transaction, which an exception rolls back. The file
-- system is a parameter; the clock and the new identifier are arguments.
pub mod Limits
pub mod Capacity
pub mod Fencing
use palmagent.Common.{
  ℕ, ◌+◌, ◌-◌, String, Bool, true, false, ◌&&◌, ◌||◌, not, Option, none, some, List, [], ◌∷◌, any,
  count, find, keep, modify, is_none, is_some, or_else, ltb, leb, ◌==◌, nat_eq, string_eq,
  option_eq, if◌then◌else◌, Failure, unexpected, Result, ok, err, ◌>>=◌, ◌>>◌, refuse_if, checked,
}
use palmagent.Terminals.Types.{
  TerminalState, starting, running, TerminalRecord, Reservation, StartError, startup_timeout,
  active, active_state, is_starting, is_timeout, startup_timeout_ms, terminal_protocol,
}

pub record Registry : Type 0 where
  -- Newest first, as `list` returns them.
  pub terminals : List TerminalRecord
  -- Directories that wait for their deletion, with the task.
  pub cleanups : List (String × String)

pub record FileSystem : Type 0 where
  pub exists : String → Bool
  pub realpath : String → Result String
  pub is_directory : String → Result Bool

abbrev pub terminal_limit : ℕ
terminal_limit = 16

unfoldable pub list : Registry → List TerminalRecord
list r = r.terminals

abbrev pub has_id : String → TerminalRecord → Bool
has_id id t = t.id == id

unfoldable pub get : String → Registry → Option TerminalRecord
get id r = find (has_id id) r.terminals

-- The terminals that count against the limit of a reservation.
abbrev pub occupies : Bool → TerminalRecord → Bool
occupies diagnostic t = active t && (if diagnostic then t.diagnostic else not t.diagnostic)

abbrev pub pending_for : String → List (String × String) → Bool
pending_for cwd entries = any (λ e. e.0 == cwd) entries

unfoldable pub capacity_check : Reservation → Registry → Result (Unit {0})
capacity_check input r = do
  refuse_if (input.diagnostic && ltb 0 (count (occupies true) r.terminals))
      (unexpected "A terminal diagnostic is already active")
  refuse_if (not input.diagnostic && leb terminal_limit (count (occupies false) r.terminals))
      (unexpected "Close an existing terminal before opening another (limit: 16)")

unfoldable pub directory_check : FileSystem → Reservation → Registry → Result String
directory_check fs input r = do
  cwd ← fs.realpath input.initial_cwd
  directory ← fs.is_directory cwd
  refuse_if (not directory) (unexpected "Working directory is unavailable")
  refuse_if (pending_for cwd r.cleanups) (unexpected "Working directory is pending cleanup")
  ok cwd

abbrev pub new_record : String → ℕ → String → Reservation → TerminalRecord
new_record id now cwd input = record {
  id = id;
  task_id = input.task_id;
  repo_id = input.repo_id;
  title = input.title;
  initial_cwd = cwd;
  state = starting;
  created_at = now;
  exit_code = none;
  protocol = terminal_protocol;
  start_error = none;
  start_error_code = none;
  diagnostic = input.diagnostic;
  diagnostic_cleanup_failed = false;
  request_id = input.request_id;
  release = input.release;
  node = input.node;
  directory = input.directory;
  cols = input.cols;
  rows = input.rows;
  pid = none;
  identity = none;
}

-- `INSERT INTO terminals`, with its primary key.
unfoldable pub insert : TerminalRecord → Registry → Result (TerminalRecord × Bool) × Registry
insert t r =
    if any (has_id t.id) r.terminals
    then (err (unexpected "UNIQUE constraint failed: terminals.id"), r)
    else (ok (t, true), record r { terminals = t ∷ r.terminals })

unfoldable pub reserve_new :
    FileSystem → String → ℕ → Reservation → Registry → Result (TerminalRecord × Bool) × Registry
unfolding capacity_check directory_check insert
reserve_new fs id now input r =
    checked (do capacity_check input r; directory_check fs input r) r
      (λ cwd. insert (new_record id now cwd input) r)

unfoldable pub reserve_found :
    FileSystem
    → String
    → ℕ
    → Reservation
    → Option TerminalRecord
    → Registry
    → Result (TerminalRecord × Bool) × Registry
unfolding reserve_new
reserve_found fs id now input (some t) r =
    if not (t.task_id == input.task_id) || not (t.repo_id == input.repo_id)
    then (err (unexpected "Creation request already belongs to another target"), r)
    else (ok (t, false), r)
reserve_found fs id now input none r = reserve_new fs id now input r

-- The record of the request, and whether it was created by this call.
unfoldable pub reserve :
    FileSystem → String → ℕ → Reservation → Registry → Result (TerminalRecord × Bool) × Registry
unfolding reserve_found
reserve fs id now input r =
    reserve_found fs id now input (find (λ t. t.request_id == input.request_id) r.terminals) r

abbrev pub rewrite : String → (TerminalRecord → TerminalRecord) → Registry → Registry
rewrite id change r = record r { terminals = modify (has_id id) change r.terminals }

unfoldable pub update_found :
    String
    → (TerminalRecord → TerminalRecord)
    → Option TerminalRecord
    → Registry
    → Result TerminalRecord × Registry
update_found id change none r = (err (unexpected "Terminal not found"), r)
update_found id change (some t) r = (ok (change t), rewrite id change r)

-- `change` is the spread of a partial record over the stored one.
unfoldable pub update :
    String → (TerminalRecord → TerminalRecord) → Registry → Result TerminalRecord × Registry
unfolding get update_found
update id change r = update_found id change (get id r) r

-- A write under a condition on the stored record; tells whether it was made.
abbrev pub update_when :
    (TerminalRecord → Bool)
    → (TerminalRecord → TerminalRecord)
    → Option TerminalRecord
    → Registry
    → Bool × Registry
update_when p change none r = (false, r)
update_when p change (some t) r = if p t then (true, rewrite t.id change r) else (false, r)

-- A process identifier is never 0, so that one that is there is a true value.
abbrev pub claimable : TerminalRecord → Bool
claimable t = is_starting t.state && is_none t.pid && not (is_timeout t.start_error_code)

unfoldable pub claim : String → ℕ → String → Registry → Bool × Registry
unfolding get
claim id pid identity r =
    update_when claimable (λ t. record t { pid = some pid; identity = some identity }) (get id r) r

-- What `expireStartup` finds: a startup that has timed out before or does so now, or neither.
abbrev pub timed_out : TerminalRecord → Bool
timed_out t =
    (is_starting t.state || (elim t.state [ TerminalState.closing ↦ true | _ ↦ false ]))
    && is_timeout t.start_error_code

abbrev pub times_out : ℕ → TerminalRecord → Bool
times_out now t =
    is_starting t.state
    && not (is_timeout t.start_error_code)
    && leb (t.created_at + startup_timeout_ms) now

abbrev pub mark_timeout : TerminalRecord → TerminalRecord
mark_timeout t = record t {
  start_error_code = some startup_timeout;
  start_error =
      some
        "Shell startup timed out. Termination is being confirmed; open a new terminal after it stops.";
}

unfoldable pub expire_found : ℕ → Option TerminalRecord → Registry → Bool × Registry
expire_found now none r = (false, r)
expire_found now (some t) r =
    if timed_out t then (true, r) else update_when (times_out now) mark_timeout (some t) r

unfoldable pub expire_startup : String → ℕ → Registry → Bool × Registry
unfolding get expire_found
expire_startup id now r = expire_found now (get id r) r

abbrev pub owned_start : ℕ → String → TerminalRecord → Bool
owned_start pid identity t =
    is_starting t.state
    && t.pid == some pid
    && t.identity == some identity
    && not (is_timeout t.start_error_code)

abbrev pub mark_running : TerminalRecord → TerminalRecord
mark_running t = record t { state = running; start_error = none; start_error_code = none }

unfoldable pub ready_found : ℕ → ℕ → String → Option TerminalRecord → Registry → Bool × Registry
unfolding expire_found
ready_found now pid identity none r = (false, r)
ready_found now pid identity (some t) r =
    if not (owned_start pid identity t)
    then (false, r)
    else (let (expired, r') = expire_found now (some t) r in
        if expired then (false, r') else (true, rewrite t.id mark_running r'))

unfoldable pub ready : String → ℕ → ℕ → String → Registry → Bool × Registry
unfolding get ready_found
ready id now pid identity r = ready_found now pid identity (get id r) r

unfoldable pub note_start_error : String → StartError → String → Registry → Registry
unfolding get
note_start_error id code message r =
    (update_when (λ t. is_starting t.state && not (is_timeout t.start_error_code))
      (λ t. record t { start_error_code = some code; start_error = some message }) (get id r) r).1

unfoldable pub remove_diagnostic_found :
    Option TerminalRecord → Registry → Result (Unit {0}) × Registry
remove_diagnostic_found none r =
    (err (unexpected "Diagnostic shell termination must be confirmed before cleanup"), r)
remove_diagnostic_found (some t) r =
    if not t.diagnostic || active t
    then (err (unexpected "Diagnostic shell termination must be confirmed before cleanup"), r)
    else (ok tt, record r { terminals = keep (λ u. not (has_id t.id u)) r.terminals })

unfoldable pub remove_diagnostic : String → Registry → Result (Unit {0}) × Registry
unfolding get remove_diagnostic_found
remove_diagnostic id r = remove_diagnostic_found (get id r) r

-- `remove` deletes the directory, and may throw; then the entry stays.
unfoldable pub cleanup_real :
    String → String → Result (Unit {0}) → Registry → Result Bool × Registry
cleanup_real cwd task_id removal r =
    if any (λ t. active t && t.initial_cwd == cwd) r.terminals
    then (
      ok false,
      record r { cleanups = (cwd, task_id) ∷ keep (λ e. not (e.0 == cwd)) r.cleanups },
    )
    else checked removal r
        (λ _. (ok true, record r { cleanups = keep (λ e. not (e.0 == cwd)) r.cleanups }))

unfoldable pub cleanup :
    FileSystem → String → String → Result (Unit {0}) → Registry → Result Bool × Registry
unfolding cleanup_real
cleanup fs cwd task_id removal r =
    checked (if fs.exists cwd then fs.realpath cwd else ok cwd) r
      (λ real. cleanup_real real task_id removal r)

unfoldable pub pending_cleanup : Registry → List (String × String)
pending_cleanup r = r.cleanups
