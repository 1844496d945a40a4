-- ===== src/Tasks/Evidence/Calls.antt =====
-- The calls that a tracker waits for are in its history:
-- apps/server/src/modules/tasks/adapters/outbound/pr-evidence.ts.
use palmagent.Common.{
  includes-keep, includes-append_one, or_right, if-cases, ◌≤◌, Text, Bool, true, false, ◌&&◌, ◌||◌,
  not, Option, none, some, List, [], ◌∷◌, ◌≡◌, refl, length, arith, if◌then◌else◌, includes, any,
  ◌==◌, nat_eq, list_eq, option_eq, leb, is_none,
}
use palmagent.Events.{
  AgentKind, AgentEventKind, AgentEvent, Json, is_kind, tool_call, tool_result, get, as_string,
}
use palmagent.Tasks.Evidence.{
  PrEvidence, untracked, accept, qualifies, result_event, reported, matches, result_id, without,
  called, settle, ends_turn, is_unfinished, max_pending,
}
use palmagent.Tasks.Evidence.Pending.{Bounded, called-Bounded, settle-Bounded}

-- The event is a call with the identity, by a shell whose command qualifies.
abbrev pub creates_call : (Text → Option Json) → Text → AgentEvent → Bool
creates_call parse id ev =
    is_kind ev.kind tool_call
    && (qualifies parse ev.payload && (as_string (get "id" ev.payload) == some id))

-- The tracker after a history of events, the latest first.
abbrev pub tracked : (Text → Option Json) → List AgentEvent → PrEvidence
tracked parse [] = untracked
tracked parse (ev ∷ evs) = (accept parse ev.kind ev.agent ev.payload (tracked parse evs)).1

pub if-second {ℓ} :
    {A B : Type 0} (P : B → Type ℓ) (b : Bool) (x y : A × B)
    → P x.1
    → P y.1
    → P (if b then x else y).1
if-second P true x y h g = h
if-second P false x y h g = g

pub result_event-Bounded :
    (parse : Text → Option Json) (agent : AgentKind) (p : Json) (e : PrEvidence)
    → Bounded e
    → Bounded (result_event parse agent p e).1
unfolding result_event
result_event-Bounded parse agent p e h =
    if-second Bounded (not (matches (result_id p) e) || is_unfinished p)
      ([], record { pending = e.pending; legacy = false })
      (reported parse agent p, settle (result_id p) e) h (settle-Bounded (result_id p) e h)

pub accept-Bounded :
    (parse : Text → Option Json) (kind : AgentEventKind) (agent : AgentKind) (p : Json)
    (e : PrEvidence)
    → Bounded e
    → Bounded (accept parse kind agent p e).1
unfolding accept
accept-Bounded parse kind agent p e h = ground (
  arith,
  called-Bounded (as_string (get "id" p)) (qualifies parse p) p e h,
  result_event-Bounded parse agent p e h,
)

-- The set of calls that wait for their result holds at most 256 identities after every history.
pub tracked-le :
    (parse : Text → Option Json) (evs : List AgentEvent)
    → length (tracked parse evs).pending ≤ max_pending
tracked-le parse [] = omega arith
tracked-le parse (ev ∷ evs) =
    accept-Bounded parse ev.kind ev.agent ev.payload (tracked parse evs) (tracked-le parse evs)

-- A call without an identity whose command qualifies, with its completion.
abbrev pub anonymous_call : (Text → Option Json) → AgentEvent → Bool
anonymous_call parse ev =
    is_kind ev.kind tool_call
    && (qualifies parse ev.payload && is_none (as_string (get "id" ev.payload)))

-- The history before a result has the call that it belongs to: under the identity, or, without an
-- identity, as the event directly before it.
abbrev pub has_call : (Text → Option Json) → Option Text → List AgentEvent → Bool
has_call parse (some id) evs = any (creates_call parse id) evs
has_call parse none [] = false
has_call parse none (ev ∷ evs) = anonymous_call parse ev

pub called-includes :
    (own : Option Text) (q : Bool) (p : Json) (e : PrEvidence) (id : Text)
    → includes (called own q p e).pending id ≡ true
    → (includes e.pending id || (q && (own == some id))) ≡ true
called-includes none q p e id h = ground arith
called-includes (some own) false p e id h =
    ground (arith, includes-keep (λ i. not (i == own)) e.pending id)
called-includes (some own) true p e id h =
    let others = without own e.pending in
    ground (
      arith,
      includes-append_one (if leb max_pending (length others) then [] else others) own id,
      includes-keep (λ i. not (i == own)) e.pending id,
    )

pub settle-includes :
    (own : Option Text) (e : PrEvidence) (id : Text)
    → includes (settle own e).pending id ≡ true
    → includes e.pending id ≡ true
settle-includes none e id h = h
settle-includes (some own) e id h = includes-keep (λ i. not (i == own)) e.pending id h

pub result_event-includes :
    (parse : Text → Option Json) (agent : AgentKind) (p : Json) (e : PrEvidence) (id : Text)
    → includes (result_event parse agent p e).1.pending id ≡ true
    → includes e.pending id ≡ true
unfolding result_event
result_event-includes parse agent p e id h = ground (arith, settle-includes (result_id p) e id)

pub call-or : (k q o i : Bool) → k ≡ true → (i || (q && o)) ≡ true → ((k && (q && o)) || i) ≡ true
call-or k q o i = ground arith

pub accept-includes :
    (parse : Text → Option Json) (ev : AgentEvent) (e : PrEvidence) (id : Text)
    → includes (accept parse ev.kind ev.agent ev.payload e).1.pending id ≡ true
    → (creates_call parse id ev || includes e.pending id) ≡ true
unfolding accept
accept-includes parse ev e id =
    let p = ev.payload in
    let call = called (as_string (get "id" p)) (qualifies parse p) p e in
    let idle : PrEvidence = record { pending = e.pending; legacy = false } in
    let outcome = result_event parse ev.agent p e in
    let P : List Text × PrEvidence → Type 0 = λ r.
      includes r.1.pending id ≡ true → (creates_call parse id ev || includes e.pending id) ≡ true in
    let kept : includes e.pending id ≡ true
        → (creates_call parse id ev || includes e.pending id) ≡ true =
      or_right (creates_call parse id ev) (includes e.pending id) in
    if-cases P (ends_turn ev.kind p) ([], untracked)
      (if is_kind ev.kind tool_call
        then ([], call)
        else if is_kind ev.kind tool_result
        then outcome
        else ([], idle))
      (λ _ h. cc)
      (λ _.
        if-cases P (is_kind ev.kind tool_call) ([], call)
          (if is_kind ev.kind tool_result then outcome else ([], idle))
          (λ k h.
            call-or (is_kind ev.kind tool_call) (qualifies parse p)
              (as_string (get "id" p) == some id) (includes e.pending id) k
              (called-includes (as_string (get "id" p)) (qualifies parse p) p e id h))
          (λ _.
            if-cases P (is_kind ev.kind tool_result) outcome ([], idle)
              (λ _ h. kept (result_event-includes parse ev.agent p e id h)) (λ _ h. kept h)))

pub tracked-includes :
    (parse : Text → Option Json) (evs : List AgentEvent) (id : Text)
    → includes (tracked parse evs).pending id ≡ true
    → any (creates_call parse id) evs ≡ true
tracked-includes parse [] id h = h
tracked-includes parse (ev ∷ evs) id h =
    ground (arith, accept-includes parse ev (tracked parse evs) id, tracked-includes parse evs id)

pub called-legacy :
    (own : Option Text) (q : Bool) (p : Json) (e : PrEvidence)
    → (called own q p e).legacy ≡ true
    → (q && is_none own) ≡ true
called-legacy none q p e h = ground arith
called-legacy (some own) q p e h = cc

pub settle-legacy : (own : Option Text) (e : PrEvidence) → (settle own e).legacy ≡ false
settle-legacy none e = refl
settle-legacy (some own) e = refl

pub result_event-legacy :
    (parse : Text → Option Json) (agent : AgentKind) (p : Json) (e : PrEvidence)
    → (result_event parse agent p e).1.legacy ≡ false
unfolding result_event
result_event-legacy parse agent p e = ground (arith, settle-legacy (result_id p) e)

pub accept-legacy :
    (parse : Text → Option Json) (ev : AgentEvent) (e : PrEvidence)
    → (accept parse ev.kind ev.agent ev.payload e).1.legacy ≡ true
    → anonymous_call parse ev ≡ true
unfolding accept
accept-legacy parse ev e h = ground (
  arith,
  called-legacy (as_string (get "id" ev.payload)) (qualifies parse ev.payload) ev.payload e,
  result_event-legacy parse ev.agent ev.payload e,
)

pub matches-has_call :
    (parse : Text → Option Json) (own : Option Text) (evs : List AgentEvent)
    → matches own (tracked parse evs) ≡ true
    → has_call parse own evs ≡ true
matches-has_call parse (some id) evs h = tracked-includes parse evs id h
matches-has_call parse none [] h = h
matches-has_call parse none (ev ∷ evs) h = accept-legacy parse ev (tracked parse evs) h
