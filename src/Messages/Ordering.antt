-- ===== src/Messages/Ordering.antt =====
-- The order in which `pump` of message-controller.ts claims messages, and what recovery sends again.
use mathlib.Core.Path.{subst}
use palmagent.Common.{
  ℕ, ◌≤◌, ◌≡◌, refl, ap, ◌⊎◌, inl, inr, true, false, none, some, List, [], ◌∷◌, ◌++◌, any, every,
  find, modify, or_else, Option-cases, Bool-cases, arith, ok,
}
use palmagent.Messages.Types.{Status, queued, StoredMessage, is_queued, is_blocking, is_settled}
use palmagent.Messages.Transitions.{save}
use palmagent.Messages.Controller.{World, Host, start, start_next, next_message, mark_sending, pump}

-- Where the first queued message stands in a list of which no message blocks the queue.
pub record FirstQueued (xs : List StoredMessage) (m : StoredMessage) : Type 0 where
  pub before : List StoredMessage
  pub after : List StoredMessage
  pub split : xs ≡ before ++ m ∷ after
  pub settled : every (λ x. is_settled x.status) before ≡ true
  pub waiting : m.status ≡ queued
  pub claimed :
      (f : StoredMessage → StoredMessage)
      → modify (λ x. is_queued x.status) f xs ≡ before ++ f m ∷ after

queued_of_test : (s : Status) → is_queued s ≡ true → s ≡ queued
queued_of_test s h = ground arith

FirstQueued-cons :
    (x : StoredMessage) {xs : List StoredMessage} {m : StoredMessage}
    → is_queued x.status ≡ false
    → is_blocking x.status ≡ false
    → FirstQueued xs m
    → FirstQueued (x ∷ xs) m
FirstQueued-cons x n b r = record {
  before = x ∷ r.before;
  after = r.after;
  split = ap (λ t. x ∷ t) r.split;
  settled = ground (arith, r.settled);
  waiting = r.waiting;
  claimed = λ f. ground (arith, r.claimed f);
}

find-FirstQueued :
    (xs : List StoredMessage) (m : StoredMessage)
    → any (λ x. is_blocking x.status) xs ≡ false
    → find (λ x. is_queued x.status) xs ≡ some m
    → FirstQueued xs m
find-FirstQueued [] m free h = cc
find-FirstQueued (x ∷ xs) m free h = elim (Bool-cases (is_queued x.status)) [
  | inl q ↦
      let same : x ≡ m = ground arith in
      subst (λ t. FirstQueued (x ∷ xs) t) same
        (record {
          before = [];
          after = xs;
          split = refl;
          settled = refl;
          waiting = queued_of_test x.status q;
          claimed = λ f. ground arith;
        })
  | inr n ↦
      FirstQueued-cons x n (ground arith) (find-FirstQueued xs m (ground arith) (ground arith))
]

module _ {O : Type 0} (host : Host O) where
  -- What `pump` finds when it claims the message `m`.
  pub record Claims (now : ℕ) (w : World O) (m : StoredMessage) : Type 0 where
    pub first : FirstQueued (w.queue).messages m
    pub running : (w.queue).paused ≡ false
    pub idle : (w.queue).run_id ≡ none
    pub startable : host.can_start w.outside ≡ true
    pub unleased : or_else m.editing_until 0 ≤ now

  next_message-Claims :
      (now : ℕ) (w : World O) (m : StoredMessage)
      → next_message host now w ≡ some m
      → Claims now w m
  unfolding next_message
  next_message-Claims now w m e = record {
    first = find-FirstQueued (w.queue).messages m (ground arith) (ground arith);
    running = ground arith;
    idle = ground arith;
    startable = ground arith;
    unleased = ground arith;
  }

  -- `pump` either changes nothing, or starts the first waiting message: then the queue is neither
  -- paused nor in a run, the task can start, nobody edits the message, every message before it is
  -- delivered or cancelled, and no message but it is rewritten before the start.
  pub pump_in_order :
      (now : ℕ) (w : World O)
      → (pump host now w ≡ (ok tt, w))
        ⊎ ((m : StoredMessage) × (c : Claims now w m) × (pump host now w
              ≡ start host (mark_sending host m) (record w {
                queue = save (record (w.queue) {
                  messages = c.first.before ++ mark_sending host m ∷ c.first.after;
                });
              })))
  unfolding pump start_next
  pump_in_order now w = elim (Option-cases (next_message host now w)) [
    | inl idle ↦ inl (rw idle)
    | inr (m, e) ↦
        let c = next_message-Claims now w m e in
        inr (m, c, rw (e, c.first.claimed (mark_sending host)))
  ]
