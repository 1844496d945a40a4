-- ===== src/Tasks/Evidence/Command.antt =====
-- Which shell commands create a pull request: `isPrCreate` of
-- apps/server/src/modules/tasks/adapters/outbound/pr-evidence.ts.
use palmagent.Common.{
  ends_with, ℕ, zero, suc, String, Text, codes, Bool, true, false, ◌&&◌, ◌||◌, not, Option, none,
  some, List, [], ◌∷◌, ◌==◌, nat_eq, list_eq, option_eq, if◌then◌else◌, includes, is_empty, is_some,
  any, length, or_else,
}
use palmagent.Events.{agent_eq}
use palmagent.Tasks.Evidence.Shell.{read, start, bare, in_quote, commands_of}

abbrev pub map_codes : List String → List Text
map_codes [] = []
map_codes (s ∷ ss) = codes s ∷ map_codes ss

unfoldable pub commands : Text → Option (List (List Text))
unfolding bare in_quote commands_of
commands source = or_else (read (length source) none start source) none

-- `.` matches no end of line.
abbrev pub is_line_end : ℕ → Bool
is_line_end c = includes (10 ∷ 13 ∷ 8232 ∷ 8233 ∷ []) c

-- `/^.*\/name$/`
abbrev pub ends_in_base : Text → Text → Bool
ends_in_base name [] = false
ends_in_base name (c ∷ s) =
    not (is_line_end c) && (((c == 47) && (s == name)) || ends_in_base name s)

-- `/^(?:.*\/)?name$/`
abbrev pub has_base : Text → Text → Bool
has_base name bin = (bin == name) || ends_in_base name bin

abbrev pub is_shell : Text → Bool
is_shell bin = any (λ name. has_base name bin) (map_codes ("sh" ∷ "bash" ∷ "zsh" ∷ "dash" ∷ []))

-- `[il]*c$`
abbrev pub is_login_flag : Text → Bool
is_login_flag [] = false
is_login_flag (c ∷ s) = ((c == 99) && is_empty s) || (((c == 105) || (c == 108)) && is_login_flag s)

-- `/^-[il]*c$/`
abbrev pub is_command_flag : Text → Bool
is_command_flag [] = false
is_command_flag (c ∷ s) = (c == 45) && is_login_flag s

-- The script of `sh -c script`, where that is the only command.
unfoldable pub script_of : List (List Text) → Option Text
script_of [] = none
script_of (part ∷ q ∷ parts) = none
script_of ([] ∷ []) = none
script_of ((bin ∷ []) ∷ []) = none
script_of ((bin ∷ flag ∷ []) ∷ []) = none
script_of ((bin ∷ flag ∷ script ∷ []) ∷ []) =
    if is_shell bin && (is_command_flag flag && not (is_empty script)) then some script else none
script_of ((bin ∷ flag ∷ script ∷ w ∷ ws) ∷ []) = none

abbrev pub reserved : List Text
reserved = map_codes (
    "if" ∷ "then" ∷ "else" ∷ "elif" ∷ "fi" ∷ "for" ∷ "while" ∷ "until" ∷ "do" ∷ "done" ∷ "case"
    ∷ "esac" ∷ "function" ∷ "!" ∷ "eval" ∷ "exec" ∷ "exit" ∷ "return" ∷ [])

abbrev pub starts_reserved : List Text → Bool
starts_reserved [] = false
starts_reserved (w ∷ ws) = includes reserved w

abbrev pub value_flags : List Text
value_flags = map_codes (
    "-a" ∷ "--assignee" ∷ "-B" ∷ "--base" ∷ "-b" ∷ "--body" ∷ "-F" ∷ "--body-file" ∷ "-H" ∷ "--head"
    ∷ "-l" ∷ "--label" ∷ "-m" ∷ "--milestone" ∷ "-p" ∷ "--project" ∷ "--recover" ∷ "-r"
    ∷ "--reviewer" ∷ "-T" ∷ "--template" ∷ "-t" ∷ "--title" ∷ "-R" ∷ "--repo" ∷ [])

abbrev pub switches : List Text
switches = map_codes (
    "-d" ∷ "--draft" ∷ "-e" ∷ "--editor" ∷ "-f" ∷ "--fill" ∷ "--fill-first" ∷ "--fill-verbose"
    ∷ "--no-maintainer-edit" ∷ [])

-- The flag before the first `=`, and the value after it.
abbrev pub split_flag : Text → Text × Option Text
split_flag [] = ([], none)
split_flag (c ∷ s) =
    let rest = split_flag s in if c == 61 then ([], some s) else (c ∷ rest.0, rest.1)

abbrev pub is_switch : Text × Option Text → Bool
is_switch (flag, none) = includes switches flag
is_switch (flag, some value) =
    includes switches flag && includes (map_codes ("true" ∷ "false" ∷ [])) value

-- The arguments of `gh pr create`.
unfoldable pub arguments_allowed : List Text → Bool
arguments_allowed [] = true
arguments_allowed (w ∷ []) =
    if includes value_flags (split_flag w).0
    then is_some (split_flag w).1
    else is_switch (split_flag w)
arguments_allowed (w ∷ v ∷ ws) =
    let skipped = arguments_allowed ws in
    let following = arguments_allowed (v ∷ ws) in
    if includes value_flags (split_flag w).0
    then (if is_some (split_flag w).1 then following else skipped)
    else is_switch (split_flag w) && following

unfoldable pub creates : List Text → Bool
unfolding arguments_allowed
creates [] = false
creates (a ∷ []) = false
creates (a ∷ b ∷ ws) = (a == codes "pr") && ((b == codes "create") && arguments_allowed ws)

-- `-R repo` or `--repo repo` may stand before `pr create`.
abbrev pub skip_repo : List Text → List Text
skip_repo [] = []
skip_repo (a ∷ []) = a ∷ []
skip_repo (a ∷ b ∷ ws) = if (a == codes "-R") || (a == codes "--repo") then ws else a ∷ b ∷ ws

unfoldable pub is_gh_create : List Text → Bool
unfolding creates
is_gh_create [] = false
is_gh_create (bin ∷ ws) =
    ((bin == codes "gh") || ends_with bin (codes "/gh")) && creates (skip_repo ws)

-- `parsed.at(-1)`
abbrev pub last_of : List (List Text) → List Text
last_of [] = []
last_of (part ∷ []) = part
last_of (part ∷ q ∷ parts) = last_of (q ∷ parts)

-- The levels that are left: a script in a script in a script is not read.
unfoldable pub is_pr_create : ℕ → Text → Bool
unfolding commands script_of is_gh_create
is_pr_create zero command = false
is_pr_create (suc levels) command = elim (commands command) [
  | none ↦ false
  | some parsed ↦ elim (script_of parsed) [
    | some script ↦ is_pr_create levels script
    | none ↦ not (any starts_reserved parsed) && is_gh_create (last_of parsed)
  ]
]

abbrev pub max_depth : ℕ
max_depth = 3
