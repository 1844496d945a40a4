-- ===== src/Tests/Permissions.antt =====
-- A legacy name, and the theorem on permissions.ts applied to it.
use palmagent.Common.{◌≡◌, refl, true, some}
use palmagent.Permissions.{codex, is_offered, normalize_permission, codex_sandbox}
use palmagent.Permissions.Stable.{normalize_permission_stable}

with_network : codex_sandbox (some "workspace-write-net") ≡ ("workspace-write", true)
unfolding codex_sandbox
with_network = refl

normalize_permission_stable_example :
    (is_offered codex (normalize_permission codex (some "full")) ≡ true)
    × (normalize_permission codex (some (normalize_permission codex (some "full")))
        ≡ normalize_permission codex (some "full"))
normalize_permission_stable_example = normalize_permission_stable codex (some "full")
