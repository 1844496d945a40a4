-- ===== src/Terminals/Service.antt =====
-- apps/server/src/modules/terminals/application/use-cases/terminal-service.ts: creation and
-- termination over the registry. A call of the supervisor awaits: it returns the registry as other
-- callers and the terminal hosts left it meanwhile.
use palmagent.Common.{
  ℕ, String, Bool, true, false, ◌&&◌, ◌||◌, not, Option, none, some, List, keep, map, find, is_none,
  is_some, or_else, ◌==◌, nat_eq, string_eq, option_eq, if◌then◌else◌, Failure, application,
  unexpected, service_unavailable, conflict, not_found, Result, ok, err, ◌>>=◌, ◌>>◌, refuse_if,
  checked,
}
use palmagent.Terminals.Types.{
  TerminalState, closing, exited, lost, TerminalRecord, Reservation, launch_unconfirmed,
  TerminalSession, public_terminal, Target, task, repo, CreateTerminalRequest,
}
use palmagent.Terminals.Store.{Registry, FileSystem, list, get, reserve, update, note_start_error}

pub record TaskTarget : Type 0 where
  pub task_id : String
  pub repo_id : String
  pub worktree_path : Option String
  pub closed : Bool

-- The application around the terminals: tasks, spaces, files and the process supervisor.
pub record Platform : Type 0 where
  pub available : Bool
  pub reason : Option String
  pub updating : Bool
  pub find_task : String → Result TaskTarget
  pub repo_path : String → Option String
  pub resolve_directory : String → Result String
  pub write_descriptor : TerminalRecord → Result (Unit {0})
  pub launch : TerminalRecord → Registry → Result (Unit {0}) × Registry
  pub terminate : TerminalRecord → Registry → Result (Unit {0}) × Registry
  pub alive : TerminalRecord → Registry → Result Bool × Registry
  pub files : FileSystem
  pub release : String
  pub node : String
  pub directory : String

abbrev pub message_of : Failure → String
message_of (application code text) = text
message_of (unexpected text) = text

-- `catch (error) { throw new ApplicationError("conflict", ...) }`
abbrev pub as_conflict {ℓ} : {A : Type ℓ} → Result A → Result A
as_conflict (ok a) = ok a
as_conflict (err e) = err (application conflict (message_of e))

abbrev pub or_conflict {ℓ} : {A : Type ℓ} → String → Result A → Result A
or_conflict text (ok a) = ok a
or_conflict text (err e) = err (application conflict text)

abbrev pub or_not_found {ℓ} : {A : Type ℓ} → Option A → String → Result A
or_not_found (some a) text = ok a
or_not_found none text = err (application not_found text)

abbrev pub listed : Option String → Option String → TerminalRecord → Bool
listed task_id repo_id t =
    (not t.diagnostic || t.diagnostic_cleanup_failed)
    && (is_none task_id || t.task_id == task_id)
    && (is_none repo_id || some t.repo_id == repo_id)

unfoldable pub list_public : Option String → Option String → Registry → List TerminalSession
unfolding list
list_public task_id repo_id r = map public_terminal (keep (listed task_id repo_id) (list r))

unfoldable pub get_record : String → Registry → Result TerminalRecord
unfolding get
get_record id r = or_not_found (get id r) "Terminal not found"

-- A state-passing call whose error is replaced.
abbrev pub renamed {ℓ} : {A S : Type ℓ} → (Failure → Failure) → Result A × S → Result A × S
renamed f (ok a, s) = (ok a, s)
renamed f (err e, s) = (err (f e), s)

-- Goes on with the value of a call that also changed the state.
abbrev pub and_then {ℓ} : {A B S : Type ℓ} → Result A × S → (A → S → Result B × S) → Result B × S
and_then (ok a, s) k = k a s
and_then (err e, s) k = (err e, s)

module _ (p : Platform) where
  unfoldable pub launch_failed :
      String → Result (Unit {0}) × Registry → Result (Unit {0}) × Registry
  launch_failed id (ok _, r) = (ok tt, r)
  launch_failed id (err e, r) = (
    err (
        application service_unavailable
          "Shell launch could not be confirmed. Check this terminal's status before opening another."),
    note_start_error id launch_unconfirmed
        "Shell launch could not be confirmed. Palmagent will retry this terminal; check the installation's terminal service."
        r,
  )

  unfoldable pub launch_once : String → Registry → Result (Unit {0}) × Registry
  unfolding get_record launch_failed
  launch_once id r =
      checked (get_record id r) r
        λ t. checked (p.write_descriptor t) r (λ _. launch_failed id (p.launch t r))

  abbrev pub other_target : Target → TerminalRecord → Bool
  other_target (task id) t = not (t.task_id == some id)
  other_target (repo id) t = not (t.repo_id == id) || is_some t.task_id

  abbrev pub target_task : Target → Result (Option TaskTarget)
  target_task (task id) = do t ← p.find_task id; ok (some t)
  target_task (repo id) = ok none

  abbrev pub target_repo : Target → Option TaskTarget → String
  target_repo target (some t) = t.repo_id
  target_repo (repo id) none = id
  target_repo (task id) none = ""

  abbrev pub is_closed : Option TaskTarget → Bool
  is_closed none = false
  is_closed (some t) = t.closed

  abbrev pub worktree : Option TaskTarget → Option String
  worktree none = none
  worktree (some t) = t.worktree_path

  abbrev pub task_id_of : Option TaskTarget → Option String
  task_id_of none = none
  task_id_of (some t) = some t.task_id

  -- The checks of a new request, which read the application and write nothing.
  unfoldable pub plan : CreateTerminalRequest → Result Reservation
  plan input = do
    target ← target_task input.target
    refuse_if (is_closed target)
        (application conflict "Open a terminal from an active task or its Space")
    path ← or_not_found (p.repo_path (target_repo input.target target)) "Space not found"
    cwd ←
        or_conflict "Working directory is unavailable"
          (p.resolve_directory (or_else (worktree target) path))
    ok (record {
      task_id = task_id_of target;
      repo_id = target_repo input.target target;
      title = or_else input.title "Shell";
      initial_cwd = cwd;
      diagnostic = false;
      request_id = input.request_id;
      release = p.release;
      node = p.node;
      directory = p.directory;
      cols = input.cols;
      rows = input.rows;
    })

  abbrev pub to_conflict : Failure → Failure
  to_conflict e = application conflict (message_of e)

  abbrev pub launch_created : TerminalRecord × Bool → Registry → Result (Unit {0}) × Registry
  launch_created (t, true) r = launch_once t.id r
  launch_created (t, false) r = (ok tt, r)

  unfoldable pub create_new :
      String → ℕ → CreateTerminalRequest → Registry → Result TerminalSession × Registry
  unfolding plan launch_once get_record reserve
  create_new id now input r = checked (plan input) r λ reservation.
      and_then (renamed to_conflict (reserve p.files id now reservation r)) λ reserved s.
        and_then (launch_created reserved s)
          λ _ v. checked (get_record (reserved.0).id v) v (λ t. (ok (public_terminal t), v))

  unfoldable pub create_found :
      String
      → ℕ
      → CreateTerminalRequest
      → Option TerminalRecord
      → Registry
      → Result TerminalSession × Registry
  unfolding create_new
  create_found id now input (some t) r =
      if other_target input.target t
      then (err (application conflict "Request belongs to another target"), r)
      else (ok (public_terminal t), r)
  create_found id now input none r = create_new id now input r

  unfoldable pub admit : Result (Unit {0})
  admit = do
    refuse_if (not p.available) (
        application service_unavailable
          (or_else p.reason "Terminals are unavailable on this platform"))
    refuse_if p.updating (application conflict "Installation maintenance is in progress")

  unfoldable pub create :
      String → ℕ → CreateTerminalRequest → Registry → Result TerminalSession × Registry
  unfolding admit create_found
  create id now input r =
      checked admit r
        (λ _. create_found id now input (find (λ t. t.request_id == input.request_id) (list r)) r)

  unfoldable pub rename : String → String → Registry → Result TerminalSession × Registry
  unfolding get_record update
  rename id title r = checked (get_record id r) r λ _.
      and_then (update id (λ t. record t { title = title }) r) (λ t s. (ok (public_terminal t), s))

  abbrev pub is_over : TerminalState → Bool
  is_over exited = true
  is_over lost = true
  is_over _ = false

  -- Termination up to the reconciliation at its end.
  unfoldable pub terminate_record :
      String → TerminalRecord → Registry → Result TerminalSession × Registry
  unfolding update
  terminate_record id t r =
      if is_over t.state
      then (ok (public_terminal t), r)
      else and_then (update id (λ u. record u { state = closing }) r) (λ _ s.
        and_then (p.terminate t s) (λ _ v.
          and_then (update id (λ u. record u { state = exited }) v)
            (λ u w. (ok (public_terminal u), w))))

  unfoldable pub terminate : String → Registry → Result TerminalSession × Registry
  unfolding get_record terminate_record
  terminate id r = checked (get_record id r) r (λ t. terminate_record id t r)
