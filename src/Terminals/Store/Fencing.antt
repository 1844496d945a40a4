-- ===== src/Terminals/Store/Fencing.antt =====
-- A terminal starts at most once: the claim of a terminal host, its readiness and the startup timeout
-- of sqlite-terminal-store.ts exclude one another.
use mathlib.Core.Path.{subst, ap}
use mathlib.Core.Bool.{false≢true}
use palmagent.Common.{
  ℕ, ◌+◌, ◌<◌, String, ◌≡◌, refl, sym, inl, inr, Bool, true, false, Option, none, some, find,
  modify, ◌==◌, nat_eq, string_eq, option_eq, eq_iff, find_sound, find-modify, arith, Bool-cases,
}
use palmagent.Terminals.Types.{
  starting, TerminalRecord, StartError, is_starting, is_timeout, startup_timeout_ms,
}
use palmagent.Terminals.Store.{
  Registry, get, has_id, rewrite, update_when, claim, claimable, expire_startup, expire_found,
  mark_timeout, times_out, timed_out, ready, ready_found, mark_running, owned_start,
  note_start_error,
}

-- After a write in place the registry gives back what was written.
get-rewrite :
    (id : String) (f : TerminalRecord → TerminalRecord) (t : TerminalRecord) (r : Registry)
    → get id r ≡ some t
    → ((u : TerminalRecord) → (f u).id ≡ u.id)
    → get id (rewrite t.id f r) ≡ some (f t)
unfolding get
get-rewrite id f t r e keeps_id =
    let own : t.id ≡ id = (eq_iff t.id id).0 (find_sound (has_id id) r.terminals e) in
    subst (λ k. find (has_id id) (modify (has_id k) f r.terminals) ≡ some (f t)) (sym own)
      (find-modify (has_id id) f r.terminals t e (rw (keeps_id t) ((eq_iff t.id id).1 own)))

module _ (id : String) (r : Registry) where
  update_when-true :
      (p : TerminalRecord → Bool) (f : TerminalRecord → TerminalRecord) (o : Option TerminalRecord)
      {s : Registry}
      → get id r ≡ o
      → ((u : TerminalRecord) → (f u).id ≡ u.id)
      → update_when p f o r ≡ (true, s)
      → (t : TerminalRecord) × (get id r ≡ some t) × (p t ≡ true) × (get id s ≡ some (f t))
  update_when-true p f none {s} e k h = absurd (false≢true (ap (λ (x : Bool × Registry). x.0) h))
  update_when-true p f (some t) {s} e k h = elim (Bool-cases (p t)) [
    | inl y ↦
        let same : rewrite t.id f r ≡ s = ap (λ (x : Bool × Registry). x.1) (rw y at h) in
        (t, e, y, subst (λ q. get id q ≡ some (f t)) same (get-rewrite id f t r e k))
    | inr n ↦ absurd (false≢true (ap (λ (x : Bool × Registry). x.0) (rw n at h)))
  ]

-- One host claims a terminal: after a successful claim every other claim fails and writes nothing.
pub claim_once :
    (id : String) (pid pid' : ℕ) (identity identity' : String) (r s : Registry)
    → claim id pid identity r ≡ (true, s)
    → claim id pid' identity' s ≡ (false, s)
unfolding claim
claim_once id pid pid' identity identity' r s h =
    let (t, e, y, e') =
      update_when-true id r claimable (λ t. record t { pid = some pid; identity = some identity })
        (get id r) refl (λ u. refl) h in
    rw e' (ground arith)

-- The timeout stands on the record of a start that is not over.
abbrev pub IsFenced : TerminalRecord → Type 0
IsFenced t = is_timeout t.start_error_code ≡ true

expire_found-IsFenced :
    (id : String) (now : ℕ) (o : Option TerminalRecord) (r s : Registry)
    → get id r ≡ o
    → expire_found now o r ≡ (true, s)
    → (t : TerminalRecord) × (get id s ≡ some t) × IsFenced t × (timed_out t ≡ true)
unfolding expire_found
expire_found-IsFenced id now none r s e h =
    absurd (false≢true (ap (λ (x : Bool × Registry). x.0) h))
expire_found-IsFenced id now (some t) r s e h = elim (Bool-cases (timed_out t)) [
  | inl y ↦
      let same : r ≡ s = ap (λ (x : Bool × Registry). x.1) (rw y at h) in
      (t, subst (λ q. get id q ≡ some t) same e, ground arith, y)
  | inr n ↦
      let (u, eu, y, e') =
        update_when-true id r (times_out now) mark_timeout (some t) e (λ v. refl) (rw n at h) in
      (mark_timeout u, e', refl, ground arith)
]

-- Once a startup has timed out, whatever the time and the host: no claim and no readiness succeeds,
-- no later error replaces the timeout, and the timeout is reported again; none of these writes.
pub expired_fences :
    (id : String) (now later pid : ℕ) (identity message : String) (code : StartError)
    (r s : Registry)
    → expire_startup id now r ≡ (true, s)
    → (claim id pid identity s ≡ (false, s))
      × (ready id later pid identity s ≡ (false, s))
      × (note_start_error id code message s ≡ s)
      × (expire_startup id later s ≡ (true, s))
unfolding expire_startup claim ready ready_found note_start_error expire_found
expired_fences id now later pid identity message code r s h =
    let (t, e, fenced, over) = expire_found-IsFenced id now (get id r) r s refl h in
    (
      rw e (ground arith),
      rw e (ground arith),
      rw (e, note_start_error) (ground arith),
      rw (e, over),
    )

state_of_test : (t : TerminalRecord) → is_starting t.state ≡ true → t.state ≡ starting
state_of_test t h = ground arith

identity_of_test : (a : Option String) (b : String) → (a == some b) ≡ true → a ≡ some b
identity_of_test a b h = (option_eq.beq_iff a (some b)).0 h

ready_found-true :
    (now pid : ℕ) (identity : String) (t : TerminalRecord) (r s : Registry)
    → ready_found now pid identity (some t) r ≡ (true, s)
    → (owned_start pid identity t ≡ true)
      × (times_out now t ≡ false)
      × (rewrite t.id mark_running r ≡ s)
unfolding ready_found expire_found
ready_found-true now pid identity t r s h = elim (Bool-cases (owned_start pid identity t)) [
  | inr n ↦ absurd (false≢true (ap (λ (x : Bool × Registry). x.0) (rw n at h)))
  | inl y ↦
      let fresh : timed_out t ≡ false = ground arith in
      elim (Bool-cases (times_out now t)) [
        | inl late ↦
            absurd (false≢true (ap (λ (x : Bool × Registry). x.0) (rw (y, fresh, late) at h)))
        | inr early ↦ (y, early, ap (λ (x : Bool × Registry). x.1) (rw (y, fresh, early) at h))
      ]
]

-- A host that reports readiness in time makes its terminal run; then the terminal was starting, was
-- claimed by this host, and less than the startup timeout has passed since its reservation.
pub ready_in_time :
    (id : String) (now pid : ℕ) (identity : String) (r s : Registry)
    → ready id now pid identity r ≡ (true, s)
    → (t : TerminalRecord) × (get id r ≡ some t)
      × (t.state ≡ starting)
      × (t.pid ≡ some pid)
      × (t.identity ≡ some identity)
      × (now < t.created_at + startup_timeout_ms)
      × (get id s ≡ some (mark_running t))
unfolding ready ready_found
ready_in_time id now pid identity r s h = go (get id r) refl h
  where
    go :
        (o : Option TerminalRecord)
        → get id r ≡ o
        → ready_found now pid identity o r ≡ (true, s)
        → (t : TerminalRecord) × (get id r ≡ some t)
          × (t.state ≡ starting)
          × (t.pid ≡ some pid)
          × (t.identity ≡ some identity)
          × (now < t.created_at + startup_timeout_ms)
          × (get id s ≡ some (mark_running t))
    go none e k = absurd (false≢true (ap (λ (x : Bool × Registry). x.0) k))
    go (some t) e k =
        let (own, early, same) = ready_found-true now pid identity t r s k in
        (
          t,
          e,
          state_of_test t (ground arith),
          ground arith,
          identity_of_test t.identity identity (ground arith),
          ground arith,
          subst (λ q. get id q ≡ some (mark_running t)) same
              (get-rewrite id mark_running t r e (λ u. refl)),
        )
