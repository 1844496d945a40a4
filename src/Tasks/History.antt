-- ===== src/Tasks/History.antt =====
-- Pages of the history of a task: `historyStart`, `historyPage`, `historyChanges`, `activityDetails`
-- and `latestHistoryPage` of apps/server/src/modules/tasks/adapters/outbound/sqlite-tasks.ts.
-- `compact` is the table of payloads without details.
pub mod Paging
use Prim.Native.Nat.{max, min}
use palmagent.Common.{
  ℕ, zero, suc, ◌+◌, ◌-◌, String, Bool, true, false, ◌||◌, ◌&&◌, not, Option, none, some, List, [],
  ◌∷◌, ◌++◌, nat_eq, ◌==◌, keep, find, take, length, ltb, leb, or_else, if◌then◌else◌, map,
}
use palmagent.Events.{
  AgentEvent, AgentEventKind, assistant_text, tool_call, tool_result, is_kind, Json,
}
use palmagent.Events.Summary.{defer_activity_event_details}
use palmagent.Tasks.Types.{TaskRow, EventLine, EventRow}
use palmagent.Tasks.Store.{Store}
use palmagent.Tasks.Events.{events_of, event_cursor, joined, max_seq}

-- An event of a page, with whether its details were deferred.
pub record TaskHistoryEvent : Type 0 where
  pub seq : ℕ
  pub event : AgentEvent
  pub details_deferred : Bool

pub record TaskHistoryResponse : Type 0 where
  pub events : List TaskHistoryEvent
  pub before : Option ℕ
  pub cursor : ℕ

pub record TaskHistoryChanges : Type 0 where
  pub events : List TaskHistoryEvent
  pub after : ℕ
  pub through : ℕ
  pub next_after : Option ℕ

pub record TaskActivityDetails : Type 0 where
  pub events : List TaskHistoryEvent
  pub from : ℕ
  pub through : ℕ
  pub cursor : ℕ

abbrev pub page_events : ℕ
page_events = 200

abbrev pub is_below : ℕ → EventLine → Bool
is_below before e = ltb e.seq before

abbrev pub is_within : ℕ → ℕ → EventLine → Bool
is_within start before e = leb start e.seq && ltb e.seq before

abbrev pub is_text : EventLine → Bool
is_text e = is_kind e.kind assistant_text

-- The last row that passes the test: `ORDER BY seq DESC LIMIT 1`.
abbrev pub find_last : (EventLine → Bool) → List EventLine → Option EventLine
find_last p [] = none
find_last p (e ∷ es) = elim (find_last p es) [
  | some found ↦ some found
  | none ↦ if p e then some e else none
]

-- `ORDER BY seq DESC LIMIT 1 OFFSET n`
abbrev pub nth_last : ℕ → List EventLine → Option EventLine
nth_last n [] = none
nth_last n (e ∷ es) = let rest = nth_last n es in if length es == n then some e else rest

-- Text is not cut: a page starts after the event before its first run of text.
abbrev pub after_previous : Option EventLine → ℕ
after_previous none = 1
after_previous (some e) = e.seq + 1

abbrev pub start_of : List EventLine → Option EventLine → ℕ
start_of events none = 1
start_of events (some edge) =
    if is_text edge
    then after_previous
        (find_last (λ (e : EventLine). not (is_text e)) (keep (is_below edge.seq) events))
    else edge.seq

-- The rows that stand after the number `limit - 1` from the end are passed over.
unfoldable pub history_start : List EventLine → ℕ → ℕ → ℕ
history_start events before limit =
    start_of events (nth_last (limit - 1) (keep (is_below before) events))

abbrev pub with_payload_of : List (ℕ × Json) → EventLine → EventLine
with_payload_of [] e = e
with_payload_of ((id, payload) ∷ rows) e =
    let rest = with_payload_of rows e in if id == e.id then record e { payload = payload } else rest

abbrev pub full_event : EventRow → TaskHistoryEvent
full_event r = record { seq = r.seq; event = r.event; details_deferred = false }

unfoldable pub compact_event : EventRow → TaskHistoryEvent
unfolding defer_activity_event_details
compact_event r =
    let deferred = defer_activity_event_details r.event in
    record { seq = r.seq; event = deferred.0; details_deferred = deferred.1 }

-- The events of the rows, as a page shows them.
unfoldable pub shown :
    List TaskRow → List (ℕ × Json) → Bool → List EventLine → List TaskHistoryEvent
unfolding defer_activity_event_details
shown tasks compact true rows = map full_event (joined tasks rows)
shown tasks compact false rows =
    map compact_event (joined tasks (map (with_payload_of compact) rows))

abbrev pub is_detail : ℕ → ℕ → EventLine → Bool
is_detail from through e =
    leb from e.seq && leb e.seq through && (is_kind e.kind tool_call || is_kind e.kind tool_result)

abbrev pub last_seq : List EventLine → ℕ
last_seq [] = 0
last_seq (e ∷ []) = e.seq
last_seq (e ∷ f ∷ es) = last_seq (f ∷ es)

module _ {C : Type 0} (compact : List (ℕ × Json)) where
  -- A page that starts at `start`, and the place before which the next one ends.
  abbrev pub page_from : String → ℕ → ℕ → ℕ → Bool → Store C → TaskHistoryResponse
  page_from id start before cursor details s = record {
    events = shown s.tasks compact details (keep (is_within start before) (events_of id s));
    before = if ltb 1 start then some start else none;
    cursor = cursor;
  }

  unfoldable pub history_page : String → ℕ → ℕ → Bool → Store C → TaskHistoryResponse
  unfolding history_start
  history_page id before cursor details s =
      page_from id (if details then history_start (events_of id s) before page_events else 1) before
        cursor details s

  unfoldable pub latest_history_page : String → Bool → Store C → TaskHistoryResponse
  unfolding history_page event_cursor
  latest_history_page id details s =
      history_page id (event_cursor id s + 1) (event_cursor id s) details s

  abbrev pub changed_rows : String → ℕ → ℕ → Store C → List EventLine
  changed_rows id after through s =
      if leb through after
      then []
      else take (page_events + 1)
          (keep (λ (e : EventLine). ltb after e.seq && leb e.seq through) (events_of id s))

  abbrev pub changes_of : List EventLine → String → ℕ → ℕ → Bool → Store C → TaskHistoryChanges
  changes_of rows id after through details s =
      let page = take page_events rows in
      record {
        events = shown s.tasks compact details page;
        after = after;
        through = through;
        next_after = if ltb page_events (length rows) then some (last_seq page) else none;
      }

  unfoldable pub history_changes : String → ℕ → Option ℕ → Bool → Store C → TaskHistoryChanges
  unfolding event_cursor
  history_changes id after through details s =
      let cursor = event_cursor id s in
      let last = max after (min (or_else through cursor) cursor) in
      changes_of (changed_rows id after last s) id after last details s

unfoldable pub activity_details : {C : Type 0} → String → ℕ → ℕ → Store C → TaskActivityDetails
unfolding event_cursor
activity_details id from through s =
    let cursor = event_cursor id s in
    let last = min through cursor in
    record {
      events =
          if ltb last from
          then []
          else map full_event (joined s.tasks (keep (is_detail from last) (events_of id s)));
      from = from;
      through = last;
      cursor = cursor;
    }
