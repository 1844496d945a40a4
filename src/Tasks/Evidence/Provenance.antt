-- ===== src/Tasks/Evidence/Provenance.antt =====
-- What a reported pull request rests on: the tracker of
-- apps/server/src/modules/tasks/adapters/outbound/pr-evidence.ts over a history of events.
use palmagent.Common.{
  never, if-cases, Text, Bool, true, false, ◌||◌, not, Option, none, some, List, [], ◌∷◌, ◌≡◌,
  arith, if◌then◌else◌, includes, nat_eq, list_eq, option_eq, trim, list_beq_iff,
}
use palmagent.Events.{
  AgentKind, AgentEvent, Json, is_kind, tool_call, tool_result, get, as_string, or_nullish,
}
use palmagent.Tasks.Evidence.{
  PrEvidence, untracked, accept, qualifies, result_event, reported, matches, result_id, called,
  settle, ends_turn, is_unfinished, wrapped_text,
}
use palmagent.Tasks.Evidence.Output.{confirmed_url, is_pull_url, last_line}
use palmagent.Tasks.Evidence.Calls.{tracked, has_call, matches-has_call}

includes-single : (a url : Text) → includes (a ∷ []) url ≡ true → a ≡ url
includes-single a url h = (list_beq_iff a url).0 (ground arith)

confirmed-pull :
    (output : Option Text) (url : Text)
    → includes (confirmed_url output) url ≡ true
    → is_pull_url url ≡ true
unfolding confirmed_url
confirmed-pull none url = never
confirmed-pull (some output) url =
    let found = trim (last_line [] (trim output)) in
    if-cases (λ urls. includes urls url ≡ true → is_pull_url url ≡ true) (is_pull_url found)
      (found ∷ []) [] (λ good h. cc (good, includes-single found url h)) (λ _ h. cc)

reported-pull :
    (parse : Text → Option Json) (agent : AgentKind) (p : Json) (url : Text)
    → includes (reported parse agent p) url ≡ true
    → is_pull_url url ≡ true
unfolding reported
reported-pull parse agent p url h = ground (
  arith,
  confirmed-pull
      (wrapped_text parse agent p (as_string (or_nullish (get "output" p) (get "content" p)))) url,
)

not-or : (m u : Bool) → (not m || u) ≡ false → m ≡ true
not-or m u = ground arith

result_event-reported :
    (parse : Text → Option Json) (agent : AgentKind) (p : Json) (e : PrEvidence) (url : Text)
    → includes (result_event parse agent p e).0 url ≡ true
    → (is_pull_url url ≡ true) × (matches (result_id p) e ≡ true)
unfolding result_event
result_event-reported parse agent p e url =
    if-cases
      (λ (r : List Text × PrEvidence).
        includes r.0 url ≡ true → (is_pull_url url ≡ true) × (matches (result_id p) e ≡ true))
      (not (matches (result_id p) e) || is_unfinished p)
      ([], record { pending = e.pending; legacy = false })
      (reported parse agent p, settle (result_id p) e) (λ _ h. never h)
      (λ live h. (
        reported-pull parse agent p url h,
        not-or (matches (result_id p) e) (is_unfinished p) live,
      ))

accept-reported :
    (parse : Text → Option Json) (ev : AgentEvent) (e : PrEvidence) (url : Text)
    → includes (accept parse ev.kind ev.agent ev.payload e).0 url ≡ true
    → (is_kind ev.kind tool_result ≡ true)
      × (is_pull_url url ≡ true)
      × (matches (result_id ev.payload) e ≡ true)
unfolding accept
accept-reported parse ev e url =
    let p = ev.payload in
    let call = called (as_string (get "id" p)) (qualifies parse p) p e in
    let idle : PrEvidence = record { pending = e.pending; legacy = false } in
    let outcome = result_event parse ev.agent p e in
    let P : List Text × PrEvidence → Type 0 = λ r.
      includes r.0 url ≡ true
      → (is_kind ev.kind tool_result ≡ true)
        × (is_pull_url url ≡ true)
        × (matches (result_id p) e ≡ true) in
    if-cases P (ends_turn ev.kind p) ([], untracked)
      (if is_kind ev.kind tool_call
        then ([], call)
        else if is_kind ev.kind tool_result
        then outcome
        else ([], idle))
      (λ _ h. never h)
      (λ _.
        if-cases P (is_kind ev.kind tool_call) ([], call)
          (if is_kind ev.kind tool_result then outcome else ([], idle)) (λ k h. never h)
          (λ _.
            if-cases P (is_kind ev.kind tool_result) outcome ([], idle)
              (λ k h. let (u, m) = result_event-reported parse ev.agent p e url h in (k, u, m))
              (λ _ h. never h)))

-- After every history, an address that an event confirms has the form
-- `https://github.com/owner/repo/pull/n`, the event is the result of a tool, and the history before
-- it has the qualifying call of `gh pr create` that the result belongs to: under the identity of
-- the result or, if the result has none, as the event directly before it.
pub accept-has_call :
    (parse : Text → Option Json) (evs : List AgentEvent) (ev : AgentEvent) (url : Text)
    → includes (accept parse ev.kind ev.agent ev.payload (tracked parse evs)).0 url ≡ true
    → (is_kind ev.kind tool_result ≡ true)
      × (is_pull_url url ≡ true)
      × (has_call parse (result_id ev.payload) evs ≡ true)
accept-has_call parse evs ev url h =
    let (k, u, m) = accept-reported parse ev (tracked parse evs) url h in
    (k, u, matches-has_call parse (result_id ev.payload) evs m)
