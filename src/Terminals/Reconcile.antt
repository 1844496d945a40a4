-- ===== src/Terminals/Reconcile.antt =====
-- Reconciliation of the registry with the hosts that run: `reconcile` of apps/server/src/modules/
-- terminals/application/use-cases/terminal-service.ts.
use palmagent.Common.{
  ℕ, Bool, true, false, some, List, [], ◌∷◌, is_none, is_some, or_else, nat_eq, string_eq,
  option_eq, if◌then◌else◌, Result, ok, err, checked,
}
use palmagent.Terminals.Service.{Platform, get_record, and_then, launch_once}
use palmagent.Terminals.Types.{
  TerminalState, closing, exited, lost, TerminalRecord, startup_timeout, host_exited,
  services_unavailable, is_starting,
}
use palmagent.Terminals.Store.{Registry, list, update, note_start_error, expire_startup}

module _ (p : Platform) where
  abbrev pub done : Result TerminalRecord × Registry → Result (Unit {0}) × Registry
  done (ok _, r) = (ok tt, r)
  done (err e, r) = (err e, r)

  abbrev pub mark_expired : TerminalRecord → TerminalRecord
  mark_expired t = record t {
    state = lost;
    start_error_code = some startup_timeout;
    start_error =
        some
          "Shell startup timed out and was stopped. Check the installation with palmagent doctor before trying again.";
  }

  abbrev pub mark_host_exited : TerminalRecord → TerminalRecord
  mark_host_exited t = record t {
    state = lost;
    start_error_code = some host_exited;
    start_error =
        some "The shell host exited before it became ready. Check the terminal service log.";
  }

  unfoldable pub reconcile_starting : TerminalRecord → Registry → Result (Unit {0}) × Registry
  unfolding update launch_once
  reconcile_starting t r =
      if is_some t.pid
      then and_then (p.alive t r)
          (λ alive s. if alive then (ok tt, s) else done (update t.id mark_host_exited s))
      else if p.available
      then launch_once p t.id r
      else (
        ok tt,
        note_start_error t.id services_unavailable
            (or_else p.reason "Terminal services are unavailable.") r,
      )

  -- The record is read again after the answer of the supervisor.
  unfoldable pub reconcile_gone : TerminalRecord → Registry → Result (Unit {0}) × Registry
  unfolding update get_record
  reconcile_gone t r = and_then (p.alive t r) λ alive s.
      if alive
      then (ok tt, s)
      else checked (get_record t.id s) s (λ latest. done (
          update t.id (λ u. record u { state = if is_none latest.exit_code then lost else exited })
            s))

  abbrev pub is_live : TerminalState → Bool
  is_live TerminalState.running = true
  is_live closing = true
  is_live _ = false

  -- The body of the loop for one record; what it throws is dropped.
  unfoldable pub reconcile_record : ℕ → TerminalRecord → Registry → Result (Unit {0}) × Registry
  unfolding expire_startup reconcile_starting reconcile_gone update
  reconcile_record now t r =
      let (expired, s) = expire_startup t.id now r in
      if expired
      then and_then (p.terminate t s) (λ _ v. done (update t.id mark_expired v))
      else if is_starting t.state
      then reconcile_starting t s
      else if is_live t.state
      then reconcile_gone t s
      else (ok tt, s)

  unfoldable pub reconcile_all : ℕ → List TerminalRecord → Registry → Registry
  unfolding reconcile_record
  reconcile_all now [] r = r
  reconcile_all now (t ∷ ts) r = reconcile_all now ts (reconcile_record now t r).1

  -- The records of the loop are those that stand in the registry when it begins.
  unfoldable pub reconcile : ℕ → Registry → Registry
  unfolding reconcile_all list
  reconcile now r = reconcile_all now (list r) r
