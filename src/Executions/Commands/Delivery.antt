-- ===== src/Executions/Commands/Delivery.antt =====
-- The hand-out of commands to an execution: `pending` of execution-store.ts.
use mathlib.Core.Path.{subst}
use mathlib.Core.Bool.{false≢true}
use palmagent.Common.{
  ◌≤◌, String, ◌≡◌, refl, inl, inr, Bool, true, false, ◌&&◌, none, List, [], ◌∷◌, ◌++◌, map, any,
  arith, count, find, keep, modify, ◌==◌, string_eq, if◌then◌else◌, Bool-cases, eq_iff, ◌∙◌,
  count-append_one, count-map_off, count-map_never, sym, count-modify_found,
}
use palmagent.Executions.Types.{
  ExecutionCommand, CommandResult, accepted, unknown, is_accepted, CommandRecord,
}
use palmagent.Executions.Operations.{Operation, perform_all}
use palmagent.Executions.Commands.Changes.{Keeps, perform_all-Holds}
use palmagent.Executions.Store.{
  Platform, ExecutionStore, rewrite, command, is_command, add_command, pending, mark_claimed,
  unclaimed, finish, with_result,
}

-- A command of the name that still waits to be handed out.
abbrev pub waits : String → String → CommandRecord → Bool
waits execution id c = is_command execution id c && unclaimed execution c

unfoldable IsHandedOut : String → String → List CommandRecord → Type 0
IsHandedOut execution id cs =
    (count (waits execution id) cs ≤ 0) × (any (is_command execution id) cs ≡ true)

any-append_left :
    (p : CommandRecord → Bool) (c : CommandRecord) (cs : List CommandRecord)
    → any p cs ≡ true
    → any p (cs ++ c ∷ []) ≡ true
any-append_left p c [] h = cc
any-append_left p c (d ∷ cs) h = ground (arith, any-append_left p c cs)

any-map :
    (p : CommandRecord → Bool) (f : CommandRecord → CommandRecord) (cs : List CommandRecord)
    → ((c : CommandRecord) → p (f c) ≡ p c)
    → any p (map f cs) ≡ any p cs
any-map p f [] h = refl
any-map p f (c ∷ cs) h = ground (arith, any-map p f cs h, h c)

any-modify :
    (p q : CommandRecord → Bool) (f : CommandRecord → CommandRecord) (cs : List CommandRecord)
    → ((c : CommandRecord) → p (f c) ≡ p c)
    → any p (modify q f cs) ≡ any p cs
any-modify p q f [] h = refl
any-modify p q f (c ∷ cs) h = ground (arith, any-modify p q f cs h, h c)

find-any :
    (p : CommandRecord → Bool) (cs : List CommandRecord) → find p cs ≡ none → any p cs ≡ false
find-any p [] h = refl
find-any p (c ∷ cs) h = ground (arith, find-any p cs)

mark_claimed-waits :
    (x e i : String) (c : CommandRecord)
    → waits e i c ≡ false
    → waits e i (mark_claimed x c) ≡ false
mark_claimed-waits x e i c h = ground arith

mark_claimed-is_command :
    (x e i : String) (c : CommandRecord) → is_command e i (mark_claimed x c) ≡ is_command e i c
mark_claimed-is_command x e i c = ground arith

abbrev end_command : String → CommandRecord → CommandRecord
end_command x c =
    if c.execution == x && is_accepted c.result then record c { result = unknown } else c

end_command-waits :
    (x e i : String) (c : CommandRecord) → waits e i c ≡ false → waits e i (end_command x c) ≡ false
end_command-waits x e i c h = ground arith

end_command-is_command :
    (x e i : String) (c : CommandRecord) → is_command e i (end_command x c) ≡ is_command e i c
end_command-is_command x e i c = ground arith

any-command :
    (a b x y : String) (cs : List CommandRecord)
    → a ≡ x
    → b ≡ y
    → find (is_command a b) cs ≡ none
    → any (is_command x y) cs ≡ false
any-command a b x y cs e f h =
    find-any (is_command x y) cs (subst (λ t. find (is_command t.0 t.1) cs ≡ none) (both e f) h)
  where
    both : {a b x y : String} → a ≡ x → b ≡ y → ◌≡◌ {A = String × String} (a, b) (x, y)
    both e f = cc

-- The name is taken, so a new command has another.
added-IsHandedOut :
    (e i execution id : String) (body : ExecutionCommand) (s : ExecutionStore)
    → command execution id s ≡ none
    → IsHandedOut e i s.commands
    → IsHandedOut e i (add_command execution id body s).commands
unfolding IsHandedOut command
added-IsHandedOut e i execution id body s fresh (h, g) =
    let c : CommandRecord = record {
      execution = execution;
      id = id;
      body = body;
      result = accepted;
      claimed = false;
    } in
    elim (Bool-cases (is_command e i c)) [
      | inl same ↦
          let gone : any (is_command e i) s.commands ≡ false =
            any-command execution id e i s.commands ((eq_iff execution e).0 (ground arith))
              ((eq_iff id i).0 (ground arith)) fresh in
          absurd (false≢true (sym gone ∙ g))
      | inr differs ↦
          let idle : waits e i c ≡ false = ground arith in
          (
            rw (count-append_one (waits e i) c s.commands, idle) h,
            any-append_left (is_command e i) c s.commands g,
          )
    ]

settled_waits :
    (e i : String) (result : CommandResult) (c : CommandRecord)
    → is_accepted c.result ≡ true
    → waits e i c ≡ false
    → waits e i (with_result result c) ≡ false
settled_waits e i result c a h = ground arith

IsHandedOut-Keeps : (e i : String) → Keeps (IsHandedOut e i)
unfolding IsHandedOut pending finish rewrite command
IsHandedOut-Keeps e i = record {
  added =
      λ execution id body r s fresh blocked h. added-IsHandedOut e i execution id body s fresh h;
  handed_out = λ x s h. (
    omega (
      arith,
      h.0,
      count-map_off (waits e i) (mark_claimed x) s.commands (mark_claimed-waits x e i),
    ),
    any-map (is_command e i) (mark_claimed x) s.commands (mark_claimed-is_command x e i) ∙ h.1,
  );
  settled = λ x id result c s found a h. (
    omega (
      arith,
      h.0,
      count-modify_found (waits e i) (is_command x id) (with_result result) s.commands c found
          (settled_waits e i result c a),
    ),
    any-modify (is_command e i) (is_command x id) (with_result result) s.commands (λ c. refl) ∙ h.1,
  );
  ended = λ x is_lost s h. (
    omega (
      arith,
      h.0,
      count-map_off (waits e i) (end_command x) s.commands (end_command-waits x e i),
    ),
    any-map (is_command e i) (end_command x) s.commands (end_command-is_command x e i) ∙ h.1,
  );
}

any-keep-waits :
    (e i : String) (cs : List CommandRecord)
    → count (waits e i) cs ≤ 0
    → any (is_command e i) (map (mark_claimed e) (keep (unclaimed e) cs)) ≡ false
any-keep-waits e i [] h = refl
any-keep-waits e i (c ∷ cs) h =
    ground (arith, any-keep-waits e i cs, mark_claimed-is_command e e i c)

claimed_waits : (e i : String) (c : CommandRecord) → waits e i (mark_claimed e c) ≡ false
claimed_waits e i c = ground arith

any-keep :
    (p q : CommandRecord → Bool) (f : CommandRecord → CommandRecord) (cs : List CommandRecord)
    → any p (map f (keep q cs)) ≡ true
    → any p (map f cs) ≡ true
any-keep p q f [] h = h
any-keep p q f (c ∷ cs) h = ground (arith, any-keep p q f cs)

pending-IsHandedOut :
    (e i : String) (s : ExecutionStore)
    → any (is_command e i) (pending e s).0 ≡ true
    → IsHandedOut e i (pending e s).1.commands
unfolding pending IsHandedOut
pending-IsHandedOut e i s h = (
  omega (arith, count-map_never (waits e i) (mark_claimed e) s.commands (claimed_waits e i)),
  any-keep (is_command e i) (unclaimed e) (mark_claimed e) s.commands h,
)

-- A command that was handed out is not handed out again, whatever calls any number of processes
-- make in between.
pub delivered_once :
    (p : Platform) (execution id : String) (ops : List Operation) (s : ExecutionStore)
    → any (is_command execution id) (pending execution s).0 ≡ true
    → any
        (is_command execution id)
        (pending execution (perform_all p ops (pending execution s).1)).0
      ≡ false
unfolding pending IsHandedOut
delivered_once p execution id ops s h =
    let t : ExecutionStore = perform_all p ops (pending execution s).1 in
    any-keep-waits execution id t.commands (
      handed t (
        perform_all-Holds (IsHandedOut execution id) (IsHandedOut-Keeps execution id) p ops
          (pending execution s).1 (pending-IsHandedOut execution id s h)))
  where
    handed :
        (t : ExecutionStore)
        → IsHandedOut execution id t.commands
        → count (waits execution id) t.commands ≤ 0
    handed t h = h.0
