-- ===== src/Terminals/Store/Limits.antt =====
-- The limits on active terminals, and the transactions on one record that keep them:
-- apps/server/src/modules/terminals/adapters/outbound/sqlite-terminal-store.ts.
use mathlib.Core.Path.{subst}
use palmagent.Common.{
  ℕ, ◌≤◌, String, ◌≡◌, refl, sym, inl, inr, Bool, true, false, ◌||◌, not, Option, none, some, List,
  count, find, nat_eq, string_eq, option_eq, eq_iff, find_sound, ok, ◌>>◌, checked-keeps, >>-ok,
  arith, Bool-cases, count-modify_found, count-keep-le,
}
use palmagent.Terminals.Types.{TerminalRecord, Reservation, StartError, active}
use palmagent.Terminals.Store.{
  Registry, FileSystem, terminal_limit, get, has_id, occupies, capacity_check, directory_check,
  new_record, insert, reserve, reserve_new, reserve_found, rewrite, update, update_found,
  update_when, claim, claimable, expire_startup, expire_found, mark_timeout, times_out, timed_out,
  owned_start, note_start_error, remove_diagnostic, remove_diagnostic_found,
}

pub record IsWithin (r : Registry) : Type 0 where
  pub shells : count (occupies false) r.terminals ≤ terminal_limit
  pub diagnostics : count (occupies true) r.terminals ≤ 1

pub insert-IsWithin :
    (id cwd : String) (now : ℕ) (input : Reservation) (r : Registry)
    → capacity_check input r ≡ ok tt
    → IsWithin r
    → IsWithin (insert (new_record id now cwd input) r).1
unfolding insert capacity_check
insert-IsWithin id cwd now input r c h = record {
  shells = ground arith;
  diagnostics = ground arith;
}

pub reserve_found-IsWithin :
    (fs : FileSystem) (id : String) (now : ℕ) (input : Reservation) (o : Option TerminalRecord)
    (r : Registry)
    → IsWithin r
    → IsWithin (reserve_found fs id now input o r).1
unfolding reserve_found reserve_new
reserve_found-IsWithin fs id now input (some t) r h = record {
  shells = ground arith;
  diagnostics = ground arith;
}
reserve_found-IsWithin fs id now input none r h =
    checked-keeps {A = TerminalRecord × Bool} IsWithin
      (do capacity_check input r; directory_check fs input r) r
      (λ cwd. insert (new_record id now cwd input) r) h
      (λ cwd c.
        insert-IsWithin id cwd now input r
          (>>-ok (capacity_check input r) (directory_check fs input r) c).0 h)

pub reserve-IsWithin :
    (fs : FileSystem) (id : String) (now : ℕ) (input : Reservation) (r : Registry)
    → IsWithin r
    → IsWithin (reserve fs id now input r).1
unfolding reserve
reserve-IsWithin fs id now input r h = reserve_found-IsWithin fs id now input _ r h

-- A change that leaves a record's class alone and does not make it active.
abbrev pub Deactivates : (TerminalRecord → TerminalRecord) → TerminalRecord → Type 0
Deactivates f t = ((f t).diagnostic ≡ t.diagnostic) × (active t ≡ false → active (f t) ≡ false)

pub occupies_off :
    (d : Bool) (f : TerminalRecord → TerminalRecord) (t : TerminalRecord)
    → Deactivates f t
    → occupies d t ≡ false
    → occupies d (f t) ≡ false
occupies_off d f t (same, off) h = ground arith

pub rewrite-IsWithin :
    (id : String) (f : TerminalRecord → TerminalRecord) (t : TerminalRecord) (r : Registry)
    → find (has_id id) r.terminals ≡ some t
    → Deactivates f t
    → IsWithin r
    → IsWithin (rewrite id f r)
rewrite-IsWithin id f t r e d h = record {
  shells = omega (
    arith,
    h.shells,
    count-modify_found (occupies false) (has_id id) f r.terminals t e (occupies_off false f t d),
  );
  diagnostics = omega (
    arith,
    h.diagnostics,
    count-modify_found (occupies true) (has_id id) f r.terminals t e (occupies_off true f t d),
  );
}

-- The record that `get` finds is the first with its own identifier.
pub get_own :
    (id : String) (xs : List TerminalRecord) (t : TerminalRecord)
    → find (has_id id) xs ≡ some t
    → find (has_id t.id) xs ≡ some t
get_own id xs t e =
    subst (λ k. find (has_id k) xs ≡ some t)
      (sym ((eq_iff t.id id).0 (find_sound (has_id id) xs e))) e

pub update_found-IsWithin :
    (id : String) (f : TerminalRecord → TerminalRecord) (o : Option TerminalRecord) (r : Registry)
    → find (has_id id) r.terminals ≡ o
    → ((t : TerminalRecord) → o ≡ some t → Deactivates f t)
    → IsWithin r
    → IsWithin (update_found id f o r).1
unfolding update_found
update_found-IsWithin id f none r e d h = h
update_found-IsWithin id f (some t) r e d h = rewrite-IsWithin id f t r e (d t refl) h

pub update-IsWithin :
    (id : String) (f : TerminalRecord → TerminalRecord) (r : Registry)
    → ((t : TerminalRecord) → get id r ≡ some t → Deactivates f t)
    → IsWithin r
    → IsWithin (update id f r).1
unfolding update get
update-IsWithin id f r d h = update_found-IsWithin id f _ r refl d h

pub update_when-IsWithin :
    (p : TerminalRecord → Bool) (f : TerminalRecord → TerminalRecord) (id : String)
    (o : Option TerminalRecord) (r : Registry)
    → find (has_id id) r.terminals ≡ o
    → ((t : TerminalRecord) → p t ≡ true → Deactivates f t)
    → IsWithin r
    → IsWithin (update_when p f o r).1
update_when-IsWithin p f id none r e d h = h
update_when-IsWithin p f id (some t) r e d h = elim (Bool-cases (p t)) [
  | inl y ↦ rw y (rewrite-IsWithin t.id f t r (get_own id r.terminals t e) (d t y) h)
  | inr n ↦ rw n h
]

pub claim-IsWithin :
    (id : String) (pid : ℕ) (identity : String) (r : Registry)
    → IsWithin r
    → IsWithin (claim id pid identity r).1
unfolding claim get
claim-IsWithin id pid identity r h =
    update_when-IsWithin claimable _ id (find (has_id id) r.terminals) r refl
      (λ t y. (refl, λ n. n)) h

pub expire_found-IsWithin :
    (now : ℕ) (id : String) (o : Option TerminalRecord) (r : Registry)
    → find (has_id id) r.terminals ≡ o
    → IsWithin r
    → IsWithin (expire_found now o r).1
unfolding expire_found
expire_found-IsWithin now id none r e h = h
expire_found-IsWithin now id (some t) r e h = elim (Bool-cases (timed_out t)) [
  | inl y ↦ rw y h
  | inr n ↦
      rw n (
        update_when-IsWithin (times_out now) mark_timeout id (some t) r e (λ u y. (refl, λ k. k)) h)
]

pub expire_startup-IsWithin :
    (id : String) (now : ℕ) (r : Registry) → IsWithin r → IsWithin (expire_startup id now r).1
unfolding expire_startup get
expire_startup-IsWithin id now r h = expire_found-IsWithin now id _ r refl h

pub note_start_error-IsWithin :
    (id : String) (code : StartError) (m : String) (r : Registry)
    → IsWithin r
    → IsWithin (note_start_error id code m r)
unfolding note_start_error get
note_start_error-IsWithin id code m r h =
    update_when-IsWithin _ _ id (find (has_id id) r.terminals) r refl (λ t y. (refl, λ n. n)) h

pub remove_diagnostic_found-IsWithin :
    (o : Option TerminalRecord) (r : Registry)
    → IsWithin r
    → IsWithin (remove_diagnostic_found o r).1
unfolding remove_diagnostic_found
remove_diagnostic_found-IsWithin none r h = h
remove_diagnostic_found-IsWithin (some t) r h = elim (Bool-cases (not t.diagnostic || active t)) [
  | inl y ↦ rw y h
  | inr n ↦ rw n (record {
    shells =
        omega
          (arith, h.shells, count-keep-le (occupies false) (λ u. not (has_id t.id u)) r.terminals);
    diagnostics = omega (
      arith,
      h.diagnostics,
      count-keep-le (occupies true) (λ u. not (has_id t.id u)) r.terminals,
    );
  })
]

pub remove_diagnostic-IsWithin :
    (id : String) (r : Registry) → IsWithin r → IsWithin (remove_diagnostic id r).1
unfolding remove_diagnostic
remove_diagnostic-IsWithin id r h = remove_diagnostic_found-IsWithin (get id r) r h

pub owned_not_timed_out :
    (pid : ℕ) (identity : String) (t : TerminalRecord)
    → owned_start pid identity t ≡ true
    → timed_out t ≡ false
owned_not_timed_out pid identity t h = ground arith
