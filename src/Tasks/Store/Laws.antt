-- ===== src/Tasks/Store/Laws.antt =====
-- What reading a task gives back, and where pins stand:
-- apps/server/src/modules/tasks/adapters/outbound/sqlite-tasks.ts.
use palmagent.Common.{
  find-append-new, ℕ, ◌<◌, ◌≡◌, refl, ap, Text, Bool, true, false, Option, none, some, List, [],
  ◌∷◌, ◌++◌, any, ok, or_option, beq_refl, string_eq, ◌∙◌,
}
use palmagent.Tasks.Prs.{PrRef}
use palmagent.Tasks.Types.{TaskState}
use palmagent.Tasks.Rows.{
  row_to_task, task_to_row, nonempty, first_url, pr_column, parse_prs, legacy_prs, from_flag,
  to_flag,
}
use palmagent.Tasks.Store.{Store, get_task, is_task, state_of, insert_task}

-- A state that a row can hold: no empty list, no usage yet, and the address of the first request.
abbrev pub FirstPr : Option (List PrRef) → Option Text → Type 0
FirstPr none url = url ≡ none
FirstPr (some []) url = ⊥
FirstPr (some (pr ∷ prs)) url = url ≡ some pr.url

pub record IsStorable (t : TaskState) : Type 0 where
  pub usage : t.context_usage ≡ none
  pub skills : nonempty t.skills ≡ t.skills
  pub prs : FirstPr t.prs t.pr_url

flags : (b : Bool) → from_flag (to_flag b) ≡ b
flags true = refl
flags false = refl

first-url :
    (prs : Option (List PrRef)) (url : Option Text)
    → FirstPr prs url
    → or_option (first_url prs) url ≡ url
first-url none url h = refl
first-url (some []) url h = elim h [ ]
first-url (some (pr ∷ prs)) url h = cc (h)

parse-column :
    (prs : Option (List PrRef)) (url : Option Text)
    → FirstPr prs url
    → parse_prs (pr_column prs) url ≡ prs
unfolding legacy_prs
parse-column none url h = rw h refl
parse-column (some []) url h = elim h [ ]
parse-column (some (pr ∷ prs)) url h = refl

row_to_task-task_to_row : (t : TaskState) → IsStorable t → row_to_task (task_to_row t) ≡ t
unfolding row_to_task task_to_row
row_to_task-task_to_row t h =
    rw
      (
        flags t.interrupted,
        h.skills,
        first-url t.prs t.pr_url h.prs,
        parse-column t.prs t.pr_url h.prs,
        h.usage,
      )
      refl

own : (t : TaskState) → is_task t.task_id (task_to_row t) ≡ true
unfolding task_to_row
own t = beq_refl t.task_id

-- The pin, if there is one, comes before a place.
abbrev pub PinBefore : ℕ → Option ℕ → Type 0
PinBefore place none = Unit
PinBefore place (some pin) = pin < place

module _ {C : Type 0} where
  -- A new task that a row can hold is read back as it was given.
  pub insert_task-get_task :
      (t : TaskState) (s : Store C)
      → IsStorable t
      → any (is_task t.task_id) s.tasks ≡ false
      → (s' : Store C) × (insert_task t s ≡ ok s') × (get_task t.task_id s' ≡ some t)
  unfolding insert_task get_task
  insert_task-get_task t s h new = (
    record s { tasks = s.tasks ++ task_to_row t ∷ [] },
    rw new refl,
    ap state_of (find-append-new (is_task t.task_id) s.tasks (task_to_row t) new (own t))
        ∙ ap some (row_to_task-task_to_row t h),
  )
