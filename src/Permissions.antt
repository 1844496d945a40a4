-- ===== src/Permissions.antt =====
-- The permissions of the agents: packages/shared/src/permissions.ts. A name that every JavaScript
-- object inherits, such as "constructor", stands in no table here.
pub mod Stable
use palmagent.Common.{
  String, Bool, true, false, Option, none, some, List, [], ◌∷◌, any, or_else, ◌==◌, string_eq,
  option_eq, if◌then◌else◌,
}

pub data AgentKind : Type 0 where
  claude codex : AgentKind

pub record PermissionOption : Type 0 where
  pub value : String
  pub label : String
  pub description : String
  pub danger : Bool

abbrev pub entry : String → String → String → Bool → PermissionOption
entry value label description danger = record {
  value = value;
  label = label;
  description = description;
  danger = danger;
}

abbrev pub permission_cli_flag : AgentKind → String
permission_cli_flag claude = "--permission-mode"
permission_cli_flag codex = "--sandbox"

abbrev pub permissions : AgentKind → List PermissionOption
permissions claude =
    entry "plan" "Plan" "Explore only — proposes changes, makes none" false
    ∷ entry "auto" "Auto" "Claude decides which low-risk actions can run automatically" false
    ∷ entry "acceptEdits" "Accept edits"
        "Auto-applies edits in the workspace; other tools still gated" false
    ∷ entry "manual" "Manual" "Ask before a permission-gated tool action" false
    ∷ entry "dontAsk" "Don't ask" "Denies anything not pre-allowed (strict, no prompts)" false
    ∷ entry "bypassPermissions" "Bypass" "Skip permission checks for this session" true
    ∷ []
permissions codex =
    entry "read-only" "Read-only" "Inspect files without workspace writes" false
    ∷ entry "workspace-write" "Workspace" "Edit files inside the workspace sandbox" false
    ∷ entry "danger-full-access" "Full access" "Disable the filesystem sandbox" true
    ∷ []

abbrev pub default_of : AgentKind → String
default_of claude = "acceptEdits"
default_of codex = "workspace-write"

abbrev pub legacy : AgentKind → List (String × String)
legacy claude =
    ("default", "auto")
    ∷ ("readonly", "plan")
    ∷ ("auto-edit", "acceptEdits")
    ∷ ("full", "bypassPermissions")
    ∷ []
legacy codex =
    ("readonly", "read-only")
    ∷ ("auto-edit", "workspace-write")
    ∷ ("full", "danger-full-access")
    ∷ ("workspace-write-net", "workspace-write")
    ∷ []

abbrev pub lookup : String → List (String × String) → Option String
lookup key [] = none
lookup key (e ∷ es) = let rest = lookup key es in if e.0 == key then some e.1 else rest

unfoldable pub permission_alias : AgentKind → String → String
permission_alias agent value = or_else (lookup value (legacy agent)) value

abbrev pub is_offered : AgentKind → String → Bool
is_offered agent value = any (λ o. o.value == value) (permissions agent)

unfoldable pub normalize_permission : AgentKind → Option String → String
unfolding permission_alias
normalize_permission agent value =
    if is_offered agent (permission_alias agent (or_else value ""))
    then permission_alias agent (or_else value "")
    else default_of agent

-- The mode, and whether the network is allowed.
unfoldable pub codex_sandbox : Option String → String × Bool
unfolding normalize_permission
codex_sandbox permission =
    (normalize_permission codex permission, permission == some "workspace-write-net")
