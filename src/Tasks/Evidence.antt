-- ===== src/Tasks/Evidence.antt =====
-- Evidence that a pull request was created: `isPrCreate` and `PrEvidence` of
-- apps/server/src/modules/tasks/adapters/outbound/pr-evidence.ts. The shell reader is the child Shell;
-- `parse` stands for the JSON parser of the language.
pub mod Calls
pub mod Pending
pub mod Output
pub mod Command
pub mod Shell
pub mod Reader
pub mod Provenance
use palmagent.Common.{
  ends_with, ℕ, zero, suc, ◌+◌, String, Text, codes, Bool, true, false, ◌&&◌, ◌||◌, not, Option,
  none, some, List, [], ◌∷◌, ◌++◌, ◌==◌, nat_eq, list_eq, option_eq, if◌then◌else◌, includes,
  is_empty, is_some, is_none, any, leb, length, keep, starts_with, trim, or_option, every, or_else,
}
use palmagent.Events.{
  AgentKind, claude, codex, AgentEventKind, status, tool_call, tool_result, result, is_kind, Json,
  null, boolean, number, natural, below, other, string, object, array, Items, nil, cons, get,
  as_string, is_true, says, spells_one, spell_item, or_nullish, agent_eq,
}
use palmagent.Tasks.Prs.{is_digit, is_name_unit, span, after}
use palmagent.Tasks.Evidence.Shell.{read, start, bare, in_quote, commands_of}
use palmagent.Tasks.Evidence.Command.{
  map_codes, commands, is_line_end, ends_in_base, has_base, is_shell, is_login_flag,
  is_command_flag, script_of, reserved, starts_reserved, value_flags, switches, split_flag,
  is_switch, arguments_allowed, creates, skip_repo, is_gh_create, last_of, is_pr_create, max_depth,
}
use palmagent.Tasks.Evidence.Output.{
  is_number_text, ends_pull, repo_pull, repo_after, owner_repo, hosted, is_pull_url, last_line,
  block_text, blocks_text, output_text, confirmed_url, is_zero, is_null,
}

pub record PrEvidence : Type 0 where
  pub pending : List Text
  pub legacy : Bool

abbrev pub untracked : PrEvidence
untracked = record { pending = []; legacy = false }

abbrev pub max_pending : ℕ
max_pending = 256

abbrev pub without : Text → List Text → List Text
without id ids = keep (λ i. not (i == id)) ids

unfoldable pub runs_create : Option Text → Bool
unfolding is_pr_create
runs_create none = false
runs_create (some command) = is_pr_create max_depth command

abbrev pub add_pending : Text → List Text → List Text
add_pending id ids = (if leb max_pending (length ids) then [] else ids) ++ id ∷ []

abbrev pub called : Option Text → Bool → Json → PrEvidence → PrEvidence
called none q p e = record { pending = e.pending; legacy = q && says (get "status" p) "completed" }
called (some id) q p e =
    let others = without id e.pending in
    record { pending = if q then add_pending id others else others; legacy = false }

abbrev pub matches : Option Text → PrEvidence → Bool
matches none e = e.legacy
matches (some id) e = includes e.pending id

abbrev pub settle : Option Text → PrEvidence → PrEvidence
settle none e = record { pending = e.pending; legacy = false }
settle (some id) e = record { pending = without id e.pending; legacy = false }

abbrev pub is_unfinished : Json → Bool
is_unfinished p = is_null (get "exit_code" p) || says (get "status" p) "in_progress"

-- An empty identity is none.
abbrev pub result_id : Json → Option Text
result_id p = elim (as_string (get "tool_use_id" p)) [
  | some id ↦ if is_empty id then none else some id
  | none ↦ none
]

abbrev pub ends_turn : AgentEventKind → Json → Bool
ends_turn kind p =
    is_kind kind result
    || (is_kind kind status
        && spells_one (get "subtype" p) ("turn_started" ∷ "process_exit" ∷ "followup" ∷ []))

module _ (parse : Text → Option Json) where
  -- The output that a wrapper of JSON carries.
  abbrev pub unwrapped : Option Json → Option Json
  unwrapped none = none
  unwrapped (some w) = if is_zero (get "exit_code" w) then get "output" w else none

  abbrev pub wrapped_text : AgentKind → Json → Option Text → Option Text
  wrapped_text agent p (some s) =
      if starts_with (trim s) (codes "{")
      then output_text (unwrapped (parse s))
      else if is_none (get "exit_code" p) && not (agent == claude)
      then none
      else some s
  wrapped_text agent p none =
      if is_none (get "exit_code" p) && not (agent == claude)
      then none
      else output_text (or_nullish (get "output" p) (get "content" p))

  -- What a finished tool call reports.
  unfoldable pub reported : AgentKind → Json → List Text
  unfolding confirmed_url
  reported agent p =
      if is_true (get "is_error" p)
        || (is_some (get "exit_code" p) && not (is_zero (get "exit_code" p)))
      then []
      else confirmed_url
          (wrapped_text agent p (as_string (or_nullish (get "output" p) (get "content" p))))

  -- The input of a tool call, which may be the text of an object.
  abbrev pub arguments : Option Json → Json
  arguments none = null
  arguments (some (string s)) = or_else (parse s) null
  arguments (some (array xs)) = array xs
  arguments (some (object fs)) = object fs
  arguments (some null) = null
  arguments (some (boolean b)) = boolean b
  arguments (some (number n)) = number n

  abbrev pub command_of : Json → Option Text
  command_of p =
      let args = arguments (get "input" p) in
      as_string (or_nullish (get "command" p) (or_nullish (get "command" args) (get "cmd" args)))

  unfoldable pub qualifies : Json → Bool
  unfolding runs_create spells_one
  qualifies p =
      spells_one (get "name" p) ("bash" ∷ "Bash" ∷ "exec_command" ∷ "functions.exec_command" ∷ [])
      && runs_create (command_of p)

  unfoldable pub result_event : AgentKind → Json → PrEvidence → List Text × PrEvidence
  unfolding reported
  result_event agent p e =
      if not (matches (result_id p) e) || is_unfinished p
      then ([], record { pending = e.pending; legacy = false })
      else (reported agent p, settle (result_id p) e)

  unfoldable pub accept : AgentEventKind → AgentKind → Json → PrEvidence → List Text × PrEvidence
  unfolding qualifies result_event spells_one
  accept kind agent p e =
      if ends_turn kind p
      then ([], untracked)
      else if is_kind kind tool_call
      then ([], called (as_string (get "id" p)) (qualifies p) p e)
      else if is_kind kind tool_result
      then result_event agent p e
      else ([], record { pending = e.pending; legacy = false })
