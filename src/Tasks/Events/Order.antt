-- ===== src/Tasks/Events/Order.antt =====
-- The numbers of a task's events: 1, 2, 3, ... in the order of their insertion. About
-- apps/server/src/modules/tasks/adapters/outbound/sqlite-tasks.ts.
use Prim.Native.Nat.{max}
use mathlib.Core.Path.{subst}
use palmagent.Common.{
  ℕ, suc, ◌+◌, ◌≡◌, refl, String, Text, Bool, true, false, Option, none, some, List, [], ◌∷◌, ◌++◌,
  ◌==◌, string_eq, eq_iff, keep, length, arith, if◌then◌else◌, if-keeps, Result, ok, any, or_else,
  is_none, bind-ok, ltb, refuse_if, sym, ◌∙◌,
}
use palmagent.Events.{AgentEvent, Json, is_kind, status}
use palmagent.Tasks.Evidence.{untracked}
use palmagent.Tasks.Prs.{project_confirmed_prs}
use palmagent.Tasks.Types.{EventLine, EventRow}
use palmagent.Tasks.Store.{Store, find_row, update_row, set_task_raw_seq, touch_task, missing_task}
use palmagent.Tasks.Events.{
  of_task, max_seq, event_cursor, events_of, new_line, inserted, insert_events, project_pr_events,
  project_context_events, note_raw_seq, update_conversation, projected, appended,
  append_agent_events, write_pr_evidence, unchanged, accept_all, evidence_row, known_prs,
  project_contexts,
}

-- The numbers after `n` are given without a gap.
abbrev pub Numbered : ℕ → List EventLine → Type 0
Numbered n [] = Unit
Numbered n (e ∷ es) = (e.seq ≡ suc n) × Numbered (suc n) es

abbrev pub AllNumbered : List EventLine → Type 0
AllNumbered events = (id : String) → Numbered 0 (keep (of_task id) events)

Numbered-append_one :
    (n : ℕ) (es : List EventLine) (e : EventLine)
    → Numbered n es
    → e.seq ≡ suc (n + length es)
    → Numbered n (es ++ e ∷ [])
Numbered-append_one n [] e h q = (omega arith, tt)
Numbered-append_one n (f ∷ es) e (p, h) q = (p, Numbered-append_one (suc n) es e h (omega arith))

Numbered-max_seq :
    (n : ℕ) (es : List EventLine) → Numbered n es → max n (max_seq es) ≡ n + length es
Numbered-max_seq n [] h = omega arith
Numbered-max_seq n (e ∷ es) (p, h) = omega (arith, Numbered-max_seq (suc n) es h)

pub Numbered-cursor : (es : List EventLine) → Numbered 0 es → max_seq es ≡ length es
Numbered-cursor es h = omega (arith, Numbered-max_seq 0 es h)

keep-append_one {ℓ} :
    {A : Type ℓ} (p : A → Bool) (xs : List A) (x : A)
    → keep p (xs ++ x ∷ []) ≡ (if p x then keep p xs ++ x ∷ [] else keep p xs)
keep-append_one p [] x = ground arith
keep-append_one p (y ∷ xs) x = ground (arith, keep-append_one p xs x)

-- A row whose number follows is added to its own task only.
added-Numbered :
    (b : Bool) (es : List EventLine) (e : EventLine)
    → Numbered 0 es
    → (b ≡ true → e.seq ≡ suc (length es))
    → Numbered 0 (if b then es ++ e ∷ [] else es)
added-Numbered true es e h q = Numbered-append_one 0 es e h (omega (arith, q refl))
added-Numbered false es e h q = h

module _ {C : Type 0} where
  next-seq :
      (id other : String) (s : Store C)
      → AllNumbered s.events
      → (id == other) ≡ true
      → event_cursor id s + 1 ≡ suc (length (events_of other s))
  unfolding event_cursor
  next-seq id other s h q =
      let same : id ≡ other = (eq_iff id other).0 q in
      rw (sym same) (omega (arith, Numbered-cursor (events_of id s) (h id)))

  inserted-AllNumbered :
      (id : String) (ev : AgentEvent) (s : Store C)
      → AllNumbered s.events
      → AllNumbered (inserted id ev s).events
  unfolding inserted new_line
  inserted-AllNumbered id ev s h other =
      let line = new_line id ev s in
      rw (keep-append_one (of_task other) s.events line) (
        added-Numbered (of_task other line) (events_of other s) line (h other)
          (next-seq id other s h))

  insert_events-AllNumbered :
      (id : String) (evs : List AgentEvent) (s : Store C)
      → AllNumbered s.events
      → AllNumbered (insert_events id evs s).1.events
  unfolding insert_events
  insert_events-AllNumbered id [] s h = h
  insert_events-AllNumbered id (ev ∷ evs) s h =
      insert_events-AllNumbered id evs (inserted id ev s) (inserted-AllNumbered id ev s h)

  ok-AllNumbered :
      (q r : List EventRow × Store C)
      → Result.ok q ≡ ok r
      → AllNumbered q.1.events
      → AllNumbered r.1.events
  ok-AllNumbered q r e h =
      subst (λ (x : List EventRow × Store C). AllNumbered x.1.events) {x = q} {y = r} (cc e) h

  -- The projections write no events.
  if-events :
      (b : Bool) (s t : Store C) → s.events ≡ t.events → (if b then s else t).events ≡ t.events
  if-events true s t h = h
  if-events false s t h = refl

  project_pr_events-events :
      (parse : Text → Option Json) (now : ℕ) (id : String) (evs : List AgentEvent) (s : Store C)
      → (project_pr_events parse now id evs s).events ≡ s.events
  unfolding project_pr_events
  project_pr_events-events parse now id evs s =
      let row = evidence_row id s.evidence in
      let outcome = accept_all parse evs (or_else row untracked) in
      let prs = project_confirmed_prs (known_prs id s) outcome.0 false in
      if-keeps {A = Store C} (λ t. t.events ≡ s.events) (unchanged row outcome) s
        (write_pr_evidence id outcome.1 prs
          (if ltb (length (known_prs id s)) (length prs) then some now else none) s)
        refl refl

  project_context_events-events :
      (parse : Text → Option Json) (now : ℕ) (id : String) (evs : List AgentEvent) (s : Store C)
      → (project_context_events parse now id evs s).events ≡ s.events
  unfolding project_context_events
  project_context_events-events parse now id evs s =
      if-keeps {A = Store C} (λ t. t.events ≡ s.events)
        (any (λ (ev : AgentEvent). is_kind ev.kind status) evs)
        (update_row id
          (λ row. record row { context_usage = project_contexts row.context_usage evs }) s)
        s refl refl

  note_raw_seq-events :
      (parse : Text → Option Json) (now : ℕ) (id : String) (raw : Option ℕ) (s : Store C)
      → (note_raw_seq parse now id raw s).events ≡ s.events
  unfolding note_raw_seq set_task_raw_seq
  note_raw_seq-events parse now id none s = refl
  note_raw_seq-events parse now id (some n) s = refl

  module _ (parse : Text → Option Json) (now : ℕ) (update : String → List EventLine → C → C) where
    projected-events :
        (id : String) (evs : List AgentEvent) (s : Store C)
        → (projected parse now update id evs s).events ≡ s.events
    unfolding projected
    projected-events id evs s =
        let u = update_conversation parse now update id s in
        project_context_events-events parse now id evs (project_pr_events parse now id evs u)
        ∙ project_pr_events-events parse now id evs u

    appended-events :
        (id : String) (evs : List AgentEvent) (raw : Option ℕ) (s : Store C)
        → (touch_task id now
            (note_raw_seq parse now id raw (projected parse now update id evs s))).events
          ≡ s.events
    unfolding touch_task
    appended-events id evs raw s =
        note_raw_seq-events parse now id raw (projected parse now update id evs s)
        ∙ projected-events id evs s

    appended-AllNumbered :
        (id : String) (evs : List AgentEvent) (raw : Option ℕ) (s : Store C)
        → AllNumbered s.events
        → AllNumbered (appended parse now update id evs raw s).1.events
    unfolding appended
    appended-AllNumbered id evs raw s h =
        rw (appended-events id evs raw (insert_events id evs s).1)
          (insert_events-AllNumbered id evs s h)

    -- A batch of events that is appended keeps the numbers of every task's events without gaps, from
    -- 1 on in the order of insertion.
    pub append_agent_events-AllNumbered :
        (id : String) (evs : List AgentEvent) (raw : Option ℕ) (s s' : Store C)
        (rows : List EventRow)
        → AllNumbered s.events
        → append_agent_events parse now update id evs raw s ≡ ok (rows, s')
        → AllNumbered s'.events
    unfolding append_agent_events
    append_agent_events-AllNumbered id evs raw s s' rows h e =
        let (b, _, q) =
          bind-ok (refuse_if (is_none (find_row id s)) missing_task)
            (λ _. ok (appended parse now update id evs raw s)) e in
        ok-AllNumbered (appended parse now update id evs raw s) (rows, s') q
          (appended-AllNumbered id evs raw s h)
