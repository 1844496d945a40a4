-- ===== src/Tasks/Rows.antt =====
-- Rows and states of tasks: `parsePrs`, `rowToTask` and `taskToRow` of
-- apps/server/src/modules/tasks/adapters/outbound/sqlite-tasks.ts.
use palmagent.Common.{
  ℕ, Text, Bool, true, false, Option, none, some, List, [], ◌∷◌, ◌==◌, nat_eq, or_option,
}
use palmagent.Tasks.Prs.{PrRef, make_pr_ref}
use palmagent.Tasks.Types.{TaskState, TaskRow, PrColumn, listed, unreadable}

abbrev pub singleton : Option PrRef → Option (List PrRef)
singleton none = none
singleton (some pr) = some (pr ∷ [])

-- The column of one address, of older rows.
unfoldable pub legacy_prs : Option Text → Option (List PrRef)
unfolding make_pr_ref
legacy_prs none = none
legacy_prs (some []) = none
legacy_prs (some (c ∷ url)) = singleton (make_pr_ref (c ∷ url))

abbrev pub parse_prs : Option PrColumn → Option Text → Option (List PrRef)
parse_prs (some (listed (pr ∷ prs))) url = some (pr ∷ prs)
parse_prs (some (listed [])) url = legacy_prs url
parse_prs (some unreadable) url = legacy_prs url
parse_prs none url = legacy_prs url

abbrev pub first_url : Option (List PrRef) → Option Text
first_url none = none
first_url (some []) = none
first_url (some (pr ∷ prs)) = some pr.url

abbrev pub nonempty {ℓ} : {A : Type ℓ} → Option (List A) → Option (List A)
nonempty none = none
nonempty (some []) = none
nonempty (some (x ∷ xs)) = some (x ∷ xs)

abbrev pub pr_column : Option (List PrRef) → Option PrColumn
pr_column none = none
pr_column (some []) = none
pr_column (some (pr ∷ prs)) = some (listed (pr ∷ prs))

abbrev pub from_flag : ℕ → Bool
from_flag n = n == 1

abbrev pub to_flag : Bool → ℕ
to_flag true = 1
to_flag false = 0

unfoldable pub row_to_task : TaskRow → TaskState
unfolding make_pr_ref
row_to_task r = record {
  task_id = r.id;
  pinned_at = r.pinned_at;
  context_usage = r.context_usage;
  repo_id = r.repo_id;
  agent = r.agent;
  title = r.title;
  skills = r.skills_json;
  prompt = r.prompt;
  status = r.status;
  interrupted = from_flag r.interrupted;
  session_id = r.session_id;
  session_control = r.session_control;
  branch = r.branch;
  worktree_path = r.worktree_path;
  prs = parse_prs r.pr_urls r.pr_url;
  pr_url = r.pr_url;
  pending_input = r.pending_input;
  pending_approval = r.pending_approval;
  permission = r.permission;
  model = r.model;
  effort = r.effort;
  created_at = r.created_at;
  updated_at = r.updated_at;
  last_activity_at = r.last_activity_at;
}

-- The columns that the row of a new task does not give have their defaults.
unfoldable pub task_to_row : TaskState → TaskRow
task_to_row t = record {
  id = t.task_id;
  repo_id = t.repo_id;
  agent = t.agent;
  title = t.title;
  prompt = t.prompt;
  pinned_at = t.pinned_at;
  status = t.status;
  interrupted = to_flag t.interrupted;
  session_id = t.session_id;
  branch = t.branch;
  worktree_path = t.worktree_path;
  permission = t.permission;
  model = t.model;
  effort = t.effort;
  session_control = t.session_control;
  skills_json = nonempty t.skills;
  pr_url = or_option (first_url t.prs) t.pr_url;
  pr_urls = pr_column t.prs;
  pending_input = t.pending_input;
  pending_approval = t.pending_approval;
  created_at = t.created_at;
  updated_at = t.updated_at;
  last_activity_at = t.last_activity_at;
  last_raw_seq = 0;
  context_usage = none;
}
