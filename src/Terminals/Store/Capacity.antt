-- ===== src/Terminals/Store/Capacity.antt =====
-- The registry of sqlite-terminal-store.ts never holds more than 16 active shells, nor more than one
-- active diagnostic shell.
use palmagent.Common.{
  ℕ, String, ◌≡◌, refl, inl, inr, Bool, true, false, Option, none, some, find, nat_eq, string_eq,
  option_eq, if◌then◌else◌, Result, ok, checked-keeps, arith, Bool-cases,
}
use palmagent.Terminals.Types.{TerminalRecord, Reservation, StartError, active}
use palmagent.Terminals.Store.{
  Registry, FileSystem, get, has_id, reserve, update, claim, expire_startup, expire_found,
  mark_timeout, times_out, timed_out, ready, ready_found, mark_running, owned_start,
  note_start_error, remove_diagnostic, cleanup, cleanup_real,
}
use palmagent.Terminals.Store.Limits.{
  IsWithin, reserve-IsWithin, Deactivates, rewrite-IsWithin, get_own, update-IsWithin,
  claim-IsWithin, expire_startup-IsWithin, note_start_error-IsWithin, remove_diagnostic-IsWithin,
  owned_not_timed_out,
}

owned_active :
    (pid : ℕ) (identity : String) (t : TerminalRecord)
    → owned_start pid identity t ≡ true
    → active t ≡ true
owned_active pid identity t h = ground arith

-- `expireStartup` of a start that has not timed out leaves the record, or marks it.
ready_found-IsWithin :
    (now pid : ℕ) (identity id : String) (o : Option TerminalRecord) (r : Registry)
    → find (has_id id) r.terminals ≡ o
    → IsWithin r
    → IsWithin (ready_found now pid identity o r).1
unfolding ready_found expire_found
ready_found-IsWithin now pid identity id none r e h = h
ready_found-IsWithin now pid identity id (some t) r e h =
    elim (Bool-cases (owned_start pid identity t)) [
      | inr n ↦ rw n h
      | inl y ↦
          let fresh : timed_out t ≡ false = owned_not_timed_out pid identity t y in
          rw (y, fresh)
            (elim (Bool-cases (times_out now t)) [
              | inl late ↦ rw late (
                  rewrite-IsWithin t.id mark_timeout t r (get_own id r.terminals t e) (refl, λ k. k)
                    h)
              | inr early ↦ rw early (
                  rewrite-IsWithin t.id mark_running t r (get_own id r.terminals t e)
                    (refl, λ k. ground (arith, owned_active pid identity t)) h)
            ])
    ]

pub ready-IsWithin :
    (id : String) (now pid : ℕ) (identity : String) (r : Registry)
    → IsWithin r
    → IsWithin (ready id now pid identity r).1
unfolding ready get
ready-IsWithin id now pid identity r h = ready_found-IsWithin now pid identity id _ r refl h

cleanup_real-IsWithin :
    (cwd task_id : String) (removal : Result (Unit {0})) (r : Registry)
    → IsWithin r
    → IsWithin (cleanup_real cwd task_id removal r).1
unfolding cleanup_real
cleanup_real-IsWithin cwd task_id removal r h = record {
  shells = ground (arith, h.shells);
  diagnostics = ground (arith, h.diagnostics);
}

pub cleanup-IsWithin :
    (fs : FileSystem) (cwd task_id : String) (removal : Result (Unit {0})) (r : Registry)
    → IsWithin r
    → IsWithin (cleanup fs cwd task_id removal r).1
unfolding cleanup
cleanup-IsWithin fs cwd task_id removal r h =
    checked-keeps {A = Bool} IsWithin (if fs.exists cwd then fs.realpath cwd else ok cwd) r
      (λ real. cleanup_real real task_id removal r) h
      (λ real _. cleanup_real-IsWithin real task_id removal r h)

-- The transactions on the registry, by the application and by the terminal hosts.
pub data Step (fs : FileSystem) : Registry → Registry → Type 0 where
  reserves :
      (id : String) (now : ℕ) (input : Reservation) (r : Registry)
      → Step fs r (reserve fs id now input r).1
  updates :
      (id : String) (f : TerminalRecord → TerminalRecord) (r : Registry)
      → ((t : TerminalRecord) → get id r ≡ some t → Deactivates f t)
      → Step fs r (update id f r).1
  claims :
      (id : String) (pid : ℕ) (identity : String) (r : Registry)
      → Step fs r (claim id pid identity r).1
  readies :
      (id : String) (now pid : ℕ) (identity : String) (r : Registry)
      → Step fs r (ready id now pid identity r).1
  notes :
      (id : String) (code : StartError) (m : String) (r : Registry)
      → Step fs r (note_start_error id code m r)
  expires : (id : String) (now : ℕ) (r : Registry) → Step fs r (expire_startup id now r).1
  removes : (id : String) (r : Registry) → Step fs r (remove_diagnostic id r).1
  cleans :
      (cwd task_id : String) (removal : Result (Unit {0})) (r : Registry)
      → Step fs r (cleanup fs cwd task_id removal r).1

pub data Reach (fs : FileSystem) (r : Registry) : Registry → Type 0 where
  here : Reach fs r r
  next : {s t : Registry} → Reach fs r s → Step fs s t → Reach fs r t

Step-IsWithin : {fs : FileSystem} {r s : Registry} → Step fs r s → IsWithin r → IsWithin s
Step-IsWithin {fs} (reserves id now input r) h = reserve-IsWithin fs id now input r h
Step-IsWithin (updates id f r d) h = update-IsWithin id f r d h
Step-IsWithin (claims id pid identity r) h = claim-IsWithin id pid identity r h
Step-IsWithin (readies id now pid identity r) h = ready-IsWithin id now pid identity r h
Step-IsWithin (notes id code m r) h = note_start_error-IsWithin id code m r h
Step-IsWithin (expires id now r) h = expire_startup-IsWithin id now r h
Step-IsWithin (removes id r) h = remove_diagnostic-IsWithin id r h
Step-IsWithin {fs} (cleans cwd task_id removal r) h = cleanup-IsWithin fs cwd task_id removal r h

-- Whatever transactions follow one another, from any number of processes, at most 16 shells and at
-- most one diagnostic shell are active, if that was so at the start; a plain update is taken where
-- it does not turn an inactive record active nor change the record's class.
pub Reach-IsWithin : {fs : FileSystem} {r s : Registry} → Reach fs r s → IsWithin r → IsWithin s
Reach-IsWithin here h = h
Reach-IsWithin (next t st) h = Step-IsWithin st (Reach-IsWithin t h)
