-- ===== src/Executions/Store/Admission.antt =====
-- apps/server/src/modules/agents/adapters/outbound/execution-store.ts: the reservation, admission and
-- claim of an execution.
use palmagent.Common.{
  ℕ, zero, suc, ◌-◌, String, Bool, ◌&&◌, ◌||◌, not, Option, none, some, List, [], ◌∷◌, ◌++◌, map,
  any, count, keep, modify, take, is_none, is_some, or_else, ltb, ◌==◌, nat_eq, string_eq,
  option_eq, if◌then◌else◌, unexpected, Result, ok, err, ◌>>=◌, ◌>>◌, refuse_if,
}
use palmagent.Executions.Types.{
  ExecutionStart, same_start, queued, starting, running, is_queued, is_starting, is_running,
  is_live, is_busy, status, ExecutionRecord,
}
use palmagent.Executions.Store.Rows.{
  ExecutionStore, Platform, has_execution, of_task, get, latest, rewrite, append,
}

-- The two partial unique indexes.
abbrev pub live_task : String → ExecutionRecord → Bool
live_task task_id r = is_live r.state && of_task task_id r

abbrev pub live_owner : String → ExecutionRecord → Bool
live_owner key r = is_live r.state && r.owner_key == key

unfoldable pub insert_check : ExecutionRecord → ExecutionStore → Result (Unit {0})
insert_check r s =
    refuse_if
      (any (has_execution r.id) s.executions
        || any (live_task r.args.task_id) s.executions
        || any (live_owner r.owner_key) s.executions)
      (unexpected "UNIQUE constraint failed: executions")

module _ (p : Platform) where
  abbrev pub new_execution :
      String → ExecutionStart → String → String → Option String → ExecutionRecord
  new_execution id args release node skills = record {
    id = id;
    release = release;
    node = node;
    skills = skills;
    args = args;
    state = queued;
    owner_key = p.owner_key args.agent (or_else args.provider_home "") (or_else args.resume_id id);
    process = none;
    question = none;
    last_seq = 0;
  }

  unfoldable pub reserve_new :
      String
      → ExecutionStart
      → String
      → String
      → Option String
      → ExecutionStore
      → Result (ExecutionRecord × ExecutionStore)
  unfolding insert_check append get
  reserve_new id args release node skills s = do
    insert_check (new_execution id args release node skills) s
    appended ←
        append id (status "execution_queued")
          (record s { executions = s.executions ++ new_execution id args release node skills ∷ [] })
    r ← get id appended.1
    ok (r, appended.1)

  -- A message that reserves again gets its own execution.
  abbrev pub is_same_request : ExecutionStart → Option String → ExecutionRecord → Bool
  is_same_request args skills existing =
      is_some args.message_id
      && not (args.message_id == some "")
      && existing.args.message_id == args.message_id
      && same_start existing.args args
      && existing.skills == skills

  unfoldable pub reserve_after :
      Option ExecutionRecord
      → String
      → ExecutionStart
      → String
      → String
      → Option String
      → ExecutionStore
      → Result (ExecutionRecord × ExecutionStore)
  unfolding reserve_new
  reserve_after none id args release node skills s = reserve_new id args release node skills s
  reserve_after (some existing) id args release node skills s =
      if is_live existing.state
      then (if is_same_request args skills existing
          then ok (existing, s)
          else err (unexpected "An execution already owns this task"))
      else reserve_new id args release node skills s

  unfoldable pub reserve :
      String
      → ExecutionStart
      → String
      → String
      → Option String
      → ExecutionStore
      → Result (ExecutionRecord × ExecutionStore)
  unfolding reserve_after latest
  reserve id args release node skills s =
      reserve_after (latest args.task_id s) id args release node skills s

  -- The unique index of the live owners covers the new key too.
  unfoldable pub bind_session :
      String → String → ExecutionStore → Result (Unit {0} × ExecutionStore)
  unfolding get rewrite
  bind_session id session_id s = do
    r ← get id s
    let key = p.owner_key r.args.agent (or_else r.args.provider_home "") session_id
    refuse_if (is_running r.state && any (λ q. not (q.id == id) && live_owner key q) s.executions)
        (unexpected "UNIQUE constraint failed: executions.ownerKey")
    ok (tt, rewrite id (λ q. if is_running q.state then record q { owner_key = key } else q) s)

  abbrev pub claimable : String → ExecutionRecord → Bool
  claimable id r = r.id == id && is_starting r.state && is_none r.process

  unfoldable pub claim_as :
      Option (ℕ × String) → String → ExecutionStore → Result (Bool × ExecutionStore)
  claim_as none id s = err (unexpected "Cannot establish execution host identity")
  claim_as (some q) id s = ok (
    any (claimable id) s.executions,
    record s {
      executions =
          modify (claimable id) (λ r. record r { state = running; process = some q }) s.executions;
    },
  )

  unfoldable pub claim : String → ExecutionStore → Result (Bool × ExecutionStore)
  unfolding claim_as
  claim id s = claim_as p.process id s

unfoldable pub set_capacity : ℕ → ExecutionStore → Result (Unit {0} × ExecutionStore)
set_capacity capacity s = do
  refuse_if (ltb capacity 1 || ltb 9007199254740991 capacity)
      (unexpected "Invalid execution capacity")
  ok (tt, record s { capacity = some capacity })

abbrev pub busy : ExecutionRecord → Bool
busy r = is_busy r.state

abbrev pub waiting : ExecutionRecord → Bool
waiting r = is_queued r.state

-- The oldest `n` queued executions go on.
abbrev pub start_first : ℕ → List ExecutionRecord → List ExecutionRecord
start_first n [] = []
start_first zero (r ∷ rs) = r ∷ rs
start_first (suc n) (r ∷ rs) =
    let rest = start_first n rs in
    let same = start_first (suc n) rs in
    if waiting r then record r { state = starting } ∷ rest else r ∷ same

abbrev pub slots : ℕ → ExecutionStore → ℕ
slots limit s = or_else s.capacity limit - count busy s.executions

-- The identifiers of the admitted rows, and the store.
unfoldable pub admit : ℕ → ExecutionStore → List String × ExecutionStore
admit limit s =
    if any waiting s.executions
    then (
      map (λ r. r.id) (take (slots limit s) (keep waiting s.executions)),
      record s { executions = start_first (slots limit s) s.executions },
    )
    else ([], s)
