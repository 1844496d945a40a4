-- ===== src/Conversation/Trace/Settled.antt =====
-- No step is left running when its run is over: `traceOperations` of
-- packages/shared/src/conversation-trace.ts.
use mathlib.Core.Path.{subst}
use palmagent.Common.{
  ◌≡◌, refl, sym, Bool, true, false, ◌||◌, not, List, [], ◌∷◌, ◌++◌, nat_eq, every, if◌then◌else◌,
  if-keeps,
}
use palmagent.Events.{result}
use palmagent.Conversation.Log.{LogItem, has_kind, failed}
use palmagent.Conversation.Trace.{item_step, step, steps, trace_operations}
use palmagent.Conversation.Trace.Operations.{
  TraceOperation, Trace, empty_trace, settle_active, finish, boundary, terminal,
}
use palmagent.Conversation.Trace.Places.{
  IsTracked, is_settled, settle_active-settled, settled-Tracked,
}
use palmagent.Conversation.Trace.Tracking.{item_step-IsTracked}

abbrev pub AllSettled : List TraceOperation → Type 0
AllSettled ops = every is_settled ops ≡ true

finish-AllSettled : (cut : Bool) (t : Trace) → IsTracked t → AllSettled (finish cut t).operations
unfolding finish
finish-AllSettled cut t (g, h) = settle_active-settled cut t.active 0 t.operations g

finish-IsTracked : (cut : Bool) (t : Trace) → IsTracked t → IsTracked (finish cut t)
unfolding finish
finish-IsTracked cut t (g, h) = (
  settled-Tracked 0 (settle_active cut t.active 0 t.operations)
      (settle_active-settled cut t.active 0 t.operations g),
  tt,
)

opened_turn-IsTracked :
    (item : LogItem) (t : Trace)
    → IsTracked t
    → IsTracked (if boundary item then finish false t else t)
opened_turn-IsTracked item t h =
    if-keeps IsTracked (boundary item) (finish false t) t (finish-IsTracked false t h) h

step-IsTracked : (item : LogItem) (t : Trace) → IsTracked t → IsTracked (step item t)
unfolding step
step-IsTracked item t h =
    let before = if boundary item then finish false t else t in
    let g = opened_turn-IsTracked item t h in
    let cut = failed item || not (has_kind item result) in
    if-keeps IsTracked (terminal item) (finish cut before) (item_step item before)
      (finish-IsTracked cut before g) (item_step-IsTracked item before g)

steps-IsTracked : (items : List LogItem) (t : Trace) → IsTracked t → IsTracked (steps items t)
unfolding steps
steps-IsTracked [] t h = h
steps-IsTracked (item ∷ items) t h = steps-IsTracked items (step item t) (step-IsTracked item t h)

steps-append_one :
    (items : List LogItem) (item : LogItem) (t : Trace)
    → steps (items ++ item ∷ []) t ≡ step item (steps items t)
unfolding steps
steps-append_one [] item t = refl
steps-append_one (x ∷ items) item t = steps-append_one items item (step x t)

step-terminal :
    (item : LogItem) (t : Trace)
    → terminal item ≡ true
    → IsTracked t
    → AllSettled (step item t).operations
unfolding step
step-terminal item t e h = rw e (
    finish-AllSettled (failed item || not (has_kind item result))
      (if boundary item then finish false t else t) (opened_turn-IsTracked item t h))

-- No step reads as running in a conversation that is not live, and none in a live one whose last item
-- is the end of a run, whatever calls and results came before it.
pub trace_operations-AllSettled :
    (log : List LogItem) (last : LogItem)
    → terminal last ≡ true
    → AllSettled (trace_operations log false)
      × AllSettled (trace_operations (log ++ last ∷ []) true)
unfolding trace_operations
trace_operations-AllSettled log last e =
    let h = steps-IsTracked log empty_trace (tt, tt) in
    (
      finish-AllSettled false (steps log empty_trace) h,
      subst (λ (t : Trace). AllSettled t.operations) (sym (steps-append_one log last empty_trace))
          (step-terminal last (steps log empty_trace) e h),
    )
