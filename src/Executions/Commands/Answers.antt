-- ===== src/Executions/Commands/Answers.antt =====
-- The answers to a question in execution-store.ts.
use mathlib.Core.Path.{subst}
use palmagent.Common.{
  ◌≤◌, String, ◌≡◌, inl, inr, true, false, ◌&&◌, List, [], any, arith, count, ◌==◌, string_eq,
  if◌then◌else◌, Bool-cases, eq_iff, count-append_one, count-eq-zero, count-map_off,
  count-modify_found,
}
use palmagent.Executions.Types.{
  ExecutionRecord, ExecutionCommand, answer, send, steer, approve, interrupt, cancel, CommandResult,
  accepted, unknown, is_accepted, CommandRecord,
}
use palmagent.Executions.Operations.{Operation, perform_all}
use palmagent.Executions.Commands.Changes.{Keeps, perform_all-Holds}
use palmagent.Executions.Store.{
  Platform, ExecutionStore, rewrite, answer_blocked, command, is_command, pending_answer,
  add_command, with_result, pending, mark_claimed, finish,
}

-- Per execution and request, at most one answer that was not definitely refused.
unfoldable pub IsAnsweredOnce : List CommandRecord → Type 0
IsAnsweredOnce cs =
    (execution request_id : String) → count (pending_answer execution request_id) cs ≤ 1

any-pending :
    (a b x y : String) (cs : List CommandRecord)
    → a ≡ x
    → b ≡ y
    → any (pending_answer a b) cs ≡ false
    → any (pending_answer x y) cs ≡ false
any-pending a b x y cs e f h = subst (λ t. any (pending_answer t.0 t.1) cs ≡ false) (ap2 e f) h
  where
    ap2 : {a b x y : String} → a ≡ x → b ≡ y → ◌≡◌ {A = String × String} (a, b) (x, y)
    ap2 e f = cc

-- A new answer to a request that has one would have been refused.
new-IsAnsweredOnce :
    (execution id x q : String) (body : ExecutionCommand) (r : ExecutionRecord) (s : ExecutionStore)
    → answer_blocked execution body r s ≡ false
    → count (pending_answer x q) s.commands ≤ 1
    → count (pending_answer x q) (add_command execution id body s).commands ≤ 1
new-IsAnsweredOnce execution id x q (answer a) r s h g =
    let c : CommandRecord = record {
      execution = execution;
      id = id;
      body = answer a;
      result = accepted;
      claimed = false;
    } in
    elim (Bool-cases (pending_answer x q c)) [
      | inl same ↦
          let none_yet : any (pending_answer x q) s.commands ≡ false =
            any-pending execution a.request_id x q s.commands
              ((eq_iff execution x).0 (ground arith)) ((eq_iff a.request_id q).0 (ground arith))
              (ground arith) in
          rw (count-append_one (pending_answer x q) c s.commands, same)
            (omega (arith, count-eq-zero (pending_answer x q) s.commands none_yet))
      | inr differs ↦ rw (count-append_one (pending_answer x q) c s.commands, differs) g
    ]
new-IsAnsweredOnce execution id x q (send t) r s h g = ground (
  arith,
  count-append_one (pending_answer x q)
      (record { execution = execution; id = id; body = send t; result = accepted; claimed = false })
      s.commands,
)
new-IsAnsweredOnce execution id x q (steer t) r s h g = ground (
  arith,
  count-append_one (pending_answer x q)
      (record {
        execution = execution;
        id = id;
        body = steer t;
        result = accepted;
        claimed = false;
      })
      s.commands,
)
new-IsAnsweredOnce execution id x q (approve t) r s h g = ground (
  arith,
  count-append_one (pending_answer x q)
      (record {
        execution = execution;
        id = id;
        body = approve t;
        result = accepted;
        claimed = false;
      })
      s.commands,
)
new-IsAnsweredOnce execution id x q interrupt r s h g = ground (
  arith,
  count-append_one (pending_answer x q)
      (record {
        execution = execution;
        id = id;
        body = interrupt;
        result = accepted;
        claimed = false;
      })
      s.commands,
)
new-IsAnsweredOnce execution id x q cancel r s h g = ground (
  arith,
  count-append_one (pending_answer x q)
      (record { execution = execution; id = id; body = cancel; result = accepted; claimed = false })
      s.commands,
)

finished_off :
    (id x q : String) (c : CommandRecord)
    → pending_answer x q c ≡ false
    → pending_answer x q
        (if c.execution == id && is_accepted c.result then record c { result = unknown } else c)
      ≡ false
finished_off id x q c g = elim (Bool-cases (c.execution == id && is_accepted c.result)) [
  | inl y ↦ ground arith
  | inr n ↦ ground arith
]

settled_off :
    (x q : String) (result : CommandResult) (c : CommandRecord)
    → is_accepted c.result ≡ true
    → pending_answer x q c ≡ false
    → pending_answer x q (with_result result c) ≡ false
settled_off x q result c a g = ground arith

IsAnsweredOnce-Keeps : Keeps IsAnsweredOnce
unfolding IsAnsweredOnce pending finish rewrite command
IsAnsweredOnce-Keeps = record {
  added = λ execution id body r s e blocked h x q.
      new-IsAnsweredOnce execution id x q body r s blocked (h x q);
  handed_out = λ execution s h x q. omega (
    arith,
    h x q,
    count-map_off (pending_answer x q) (mark_claimed execution) s.commands (λ c g. ground arith),
  );
  settled = λ execution id result c s e a h x q. omega (
    arith,
    h x q,
    count-modify_found (pending_answer x q) (is_command execution id) (with_result result)
        s.commands c e (settled_off x q result c a),
  );
  ended = λ id is_lost s h x q. omega (
    arith,
    h x q,
    count-map_off (pending_answer x q)
        (λ c.
          if c.execution == id && is_accepted c.result then record c { result = unknown } else c)
        s.commands (finished_off id x q),
  );
}

-- From a store that holds no commands, after any sequence of calls by any number of processes, of
-- which some may throw: for each execution and request at most one answer is accepted, delivered or
-- of unknown outcome.
pub answered_once :
    (p : Platform) (ops : List Operation) (s : ExecutionStore)
    → s.commands ≡ []
    → IsAnsweredOnce (perform_all p ops s).commands
unfolding IsAnsweredOnce
answered_once p ops s e =
    perform_all-Holds IsAnsweredOnce IsAnsweredOnce-Keeps p ops s (λ x q. rw e (omega arith))
