-- ===== src/Permissions/Stable.antt =====
-- Normalising a permission of permissions.ts: any text becomes one of the agent's own values.
use mathlib.Core.Path.{subst}
use palmagent.Common.{
  String, ◌≡◌, refl, Bool, true, Option, some, List, [], ◌∷◌, any, every, or_else, ◌==◌, string_eq,
  eq_iff, inl, inr, Bool-cases, arith,
}
use palmagent.Permissions.{
  AgentKind, claude, codex, PermissionOption, permissions, is_offered, normalize_permission,
  permission_alias, default_of,
}

every-any :
    (p : String → Bool) (w : String) (xs : List PermissionOption)
    → every (λ o. p o.value) xs ≡ true
    → any (λ o. o.value == w) xs ≡ true
    → p w ≡ true
every-any p w [] h g = cc
every-any p w (o ∷ xs) h g = elim (Bool-cases (o.value == w)) [
  | inl y ↦ subst (λ t. p t ≡ true) ((eq_iff o.value w).0 y) (ground arith)
  | inr n ↦ every-any p w xs (ground arith) (ground arith)
]

-- No value that is offered is a legacy name.
offered_fixed :
    (agent : AgentKind)
    → every (λ o. normalize_permission agent (some o.value) == o.value) (permissions agent) ≡ true
unfolding normalize_permission
offered_fixed claude = refl
offered_fixed codex = refl

default_offered : (agent : AgentKind) → is_offered agent (default_of agent) ≡ true
default_offered claude = refl
default_offered codex = refl

normalize_permission-offered :
    (agent : AgentKind) (value : Option String)
    → is_offered agent (normalize_permission agent value) ≡ true
unfolding normalize_permission
normalize_permission-offered agent value =
    elim (Bool-cases (is_offered agent (permission_alias agent (or_else value "")))) [
      | inl y ↦ rw (y, y) refl
      | inr n ↦ rw n (default_offered agent)
    ]

-- Whatever text or none a request, a stored task or an older client gives: the normalised permission
-- is one that the agent offers, and normalising it again changes nothing.
pub normalize_permission_stable :
    (agent : AgentKind) (value : Option String)
    → (is_offered agent (normalize_permission agent value) ≡ true)
      × (normalize_permission agent (some (normalize_permission agent value))
          ≡ normalize_permission agent value)
normalize_permission_stable agent value = (
  normalize_permission-offered agent value,
  (eq_iff (normalize_permission agent (some (normalize_permission agent value)))
        (normalize_permission agent value)).0
      (every-any (λ t. normalize_permission agent (some t) == t) (normalize_permission agent value)
        (permissions agent) (offered_fixed agent) (normalize_permission-offered agent value)),
)
