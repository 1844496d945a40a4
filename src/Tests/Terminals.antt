-- ===== src/Tests/Terminals.antt =====
-- A registry with one terminal that starts, and the theorems on sqlite-terminal-store.ts applied.
use palmagent.Terminals.Chunks.{terminal_input_chunks, joined, Fits, joined-terminal_input_chunks}
use palmagent.Common.{
  codes, All, arith, ◌+◌, ◌<◌, ◌≡◌, refl, true, false, none, some, [], arith, ok,
}
use palmagent.Terminals.Types.{
  TerminalRecord, Reservation, starting, host_exited, startup_timeout_ms,
}
use palmagent.Terminals.Store.{
  Registry, FileSystem, get, reserve, claim, ready, expire_startup, note_start_error, mark_running,
}
use palmagent.Terminals.Store.Limits.{IsWithin}
use palmagent.Terminals.Store.Capacity.{here, next, reserves, claims, Reach-IsWithin}
use palmagent.Terminals.Store.Fencing.{claim_once, expired_fences, ready_in_time}

abbrev files : FileSystem
files = record { exists = λ p. true; realpath = λ p. ok p; is_directory = λ p. ok true }

abbrev reservation : Reservation
reservation = record {
  task_id = none;
  repo_id = "site";
  title = "Shell";
  initial_cwd = "/work";
  diagnostic = false;
  request_id = "r1";
  release = "1";
  node = "node";
  directory = "/run";
  cols = 80;
  rows = 24;
}

abbrev empty_registry : Registry
empty_registry = record { terminals = []; cleanups = [] }

abbrev reserved : Registry
reserved = (reserve files "t1" 1000 reservation empty_registry).1

abbrev claimed : Registry
claimed = (claim "t1" 7 "boot" reserved).1

Reach-IsWithin_example : IsWithin claimed
Reach-IsWithin_example =
    Reach-IsWithin {fs = files}
      (next (next here (reserves "t1" 1000 reservation empty_registry))
        (claims "t1" 7 "boot" reserved))
      (record { shells = omega arith; diagnostics = omega arith })

claim_once_example : claim "t1" 8 "other" claimed ≡ (false, claimed)
unfolding claim reserve
claim_once_example = claim_once "t1" 7 8 "boot" "other" reserved claimed refl

abbrev expired : Registry
expired = (expire_startup "t1" 31000 claimed).1

expired_fences_example :
    (claim "t1" 8 "other" expired ≡ (false, expired))
    × (ready "t1" 1500 8 "other" expired ≡ (false, expired))
    × (note_start_error "t1" host_exited "gone" expired ≡ expired)
    × (expire_startup "t1" 1500 expired ≡ (true, expired))
unfolding expire_startup claim reserve
expired_fences_example =
    expired_fences "t1" 31000 1500 8 "other" "gone" host_exited claimed expired refl

abbrev opened : Registry
opened = (ready "t1" 2000 7 "boot" claimed).1

ready_in_time_example :
    (t : TerminalRecord) × (get "t1" claimed ≡ some t)
    × (t.state ≡ starting)
    × (t.pid ≡ some 7)
    × (t.identity ≡ some "boot")
    × (2000 < t.created_at + startup_timeout_ms)
    × (get "t1" opened ≡ some (mark_running t))
unfolding ready claim reserve
ready_in_time_example = ready_in_time "t1" 2000 7 "boot" claimed opened refl

joined-terminal_input_chunks_example :
    (joined (terminal_input_chunks 3 (codes "abc")) ≡ codes "abc")
    × All Fits (terminal_input_chunks 3 (codes "abc"))
joined-terminal_input_chunks_example = joined-terminal_input_chunks 3 (codes "abc") (omega arith)
