-- ===== src/Conversation/Trace/Tracking.antt =====
-- The items of a log keep every running operation active: packages/shared/src/conversation-trace.ts.
use mathlib.Core.Path.{subst}
use palmagent.Common.{
  ℕ, ◌+◌, ◌≡◌, refl, Bool, true, false, ◌||◌, Option, none, some, List, [], ◌∷◌, nat_eq, beq_refl,
  includes, length, if◌then◌else◌, if-keeps, if-cases, arith, codes,
}
use palmagent.Events.Summary.{or_text, text, short}
use palmagent.Events.{get, tool_call, tool_result, assistant_text, status, says, says_one}
use palmagent.Conversation.Log.{LogItem, has_kind, trace_image, failed, payload}
use palmagent.Conversation.Trace.{
  find_call, find_key, note_call, opened, touched, touch, new_operation, tool_step, add,
  completed_step, include_member, image_found, image_step, status_operation, status_step, item_step,
  key_of, prose_text, silent,
}
use palmagent.Conversation.Trace.Operations.{
  TraceOperation, event, completed, error_state, is_running, Trace, CallKey, same_call, same_call,
  progress, reasoning, subtype,
}
use palmagent.Conversation.Trace.Places.{
  CallsIn, IsTracked, Tracked-cons, CallsIn-cons, Tracked-append_one, Tracked-update_at,
}

pub from_zero :
    (active : List ℕ) (n : ℕ) → includes active n ≡ true → includes active (0 + n) ≡ true
from_zero active n h = let z : n ≡ 0 + n = omega arith in subst (λ k. includes active k ≡ true) z h

pub some_inj : {n m : ℕ} → some n ≡ some m → n ≡ m
some_inj e = cc

pub here : (n : ℕ) (active : List ℕ) → includes (n ∷ active) n ≡ true
here n active = rw (beq_refl n) refl

pub clash : (r : Bool) → r ≡ true → r ≡ false → {b : Bool} → b ≡ true
clash r h e = let no : ⊥ = cc in elim no [ ]

pub find_call-in :
    (k : CallKey) (active : List ℕ) (calls : List (CallKey × ℕ)) (n : ℕ)
    → CallsIn active calls
    → find_call k calls ≡ some n
    → includes active n ≡ true
find_call-in k active [] n h = λ e. let no : ⊥ = cc in elim no [ ]
find_call-in k active ((c, m) ∷ calls) n (p, h) =
    if-cases (λ (o : Option ℕ). o ≡ some n → includes active n ≡ true) (same_call c k) (some m)
      (find_call k calls) (λ _ e. subst (λ j. includes active j ≡ true) (some_inj e) p)
      (λ _ e. find_call-in k active calls n h e)

pub find_key-in :
    (key : Option CallKey) (t : Trace)
    → IsTracked t
    → (n : ℕ) → find_key key t.calls ≡ some n
    → includes t.active n ≡ true
find_key-in none t h n e = cc
find_key-in (some k) t (g, h) n e = find_call-in k t.active t.calls n h e

pub note_call-CallsIn :
    (key : Option CallKey) (n : ℕ) (active : List ℕ) (calls : List (CallKey × ℕ))
    → CallsIn (n ∷ active) calls
    → CallsIn (n ∷ active) (note_call key n calls)
note_call-CallsIn none n active calls h = h
note_call-CallsIn (some k) n active calls h = (here n active, h)

-- A place that is active stays so, or is the new one.
pub opened-IsTracked :
    (item : LogItem) (key : Option CallKey) (found : Option ℕ) (t : Trace)
    → IsTracked t
    → ((n : ℕ) → found ≡ some n → includes t.active n ≡ true)
    → IsTracked (opened item key found t).1
      × (includes (opened item key found t).1.active (opened item key found t).0 ≡ true)
unfolding opened
opened-IsTracked item key (some n) t h own = (h, own n refl)
opened-IsTracked item key none t (g, h) own =
    let m = length t.operations in
    (
      (
        Tracked-append_one (m ∷ t.active) 0 t.operations (new_operation item)
            (Tracked-cons m t.active 0 t.operations g)
            (λ _. from_zero (m ∷ t.active) m (here m t.active)),
        note_call-CallsIn key m t.active t.calls (CallsIn-cons m t.active t.calls h),
      ),
      here m t.active,
    )

pub touched-IsTracked :
    (item : LogItem) (n : ℕ) (t : Trace)
    → IsTracked t
    → includes t.active n ≡ true
    → IsTracked (touched item (n, t))
unfolding touched
touched-IsTracked item n t (g, h) own =
    (Tracked-update_at t.active 0 n (touch item) t.operations g (from_zero t.active n own), h)

pub tool_step-IsTracked : (item : LogItem) (t : Trace) → IsTracked t → IsTracked (tool_step item t)
unfolding tool_step
tool_step-IsTracked item t h =
    let key =
      key_of item.content
        (or_text (text (get "tool_use_id" (payload item))) (text (get "id" (payload item)))) in
    let r = opened item key (find_key key t.calls) t in
    let (g, own) = opened-IsTracked item key (find_key key t.calls) t h (find_key-in key t h) in
    touched-IsTracked item r.0 r.1 g own

pub add-IsTracked :
    (op : TraceOperation) (t : Trace)
    → IsTracked t
    → is_running op.state ≡ false
    → IsTracked (add op t)
add-IsTracked op t (g, h) e =
    (Tracked-append_one t.active 0 t.operations op g (λ r. clash (is_running op.state) r e), h)

pub image_found-IsTracked :
    (item : LogItem) (found : Option ℕ) (t : Trace)
    → IsTracked t
    → ((n : ℕ) → found ≡ some n → includes t.active n ≡ true)
    → IsTracked (image_found item found t)
image_found-IsTracked item (some n) t (g, h) own = (
  Tracked-update_at t.active 0 n (include_member item.key) t.operations g
      (from_zero t.active n (own n refl)),
  h,
)
image_found-IsTracked item none t h own =
    add-IsTracked (completed_step item event (codes "Image output")) t h refl

pub status_operation-idle : (item : LogItem) → is_running (status_operation item).state ≡ false
unfolding status_operation
status_operation-idle item =
    if-keeps (λ s. is_running s ≡ false) (failed item) error_state completed refl refl

pub status_step-IsTracked :
    (item : LogItem) (t : Trace) → IsTracked t → IsTracked (status_step item t)
unfolding status_step
status_step-IsTracked item t h =
    let noted = add (completed_step item reasoning (codes "Reasoning")) t in
    let shown = add (status_operation item) t in
    if-keeps IsTracked (says (subtype item) "reasoning") noted
      (if says_one (subtype item) silent then t else shown)
      (add-IsTracked (completed_step item reasoning (codes "Reasoning")) t h refl)
      (if-keeps IsTracked (says_one (subtype item) silent) t shown h
        (add-IsTracked (status_operation item) t h (status_operation-idle item)))

pub item_step-IsTracked : (item : LogItem) (t : Trace) → IsTracked t → IsTracked (item_step item t)
unfolding item_step
item_step-IsTracked item t h =
    let shown =
      completed_step item progress
        (or_text (short (prose_text item.content)) (codes "Progress update")) in
    let key = key_of item.content (text (get "tool_use_id" (payload item))) in
    let last = if has_kind item status then status_step item t else t in
    let texts = if has_kind item assistant_text then add shown t else last in
    if-keeps IsTracked (has_kind item tool_call || has_kind item tool_result) (tool_step item t)
      (if trace_image item then image_step item t else texts) (tool_step-IsTracked item t h)
      (if-keeps IsTracked (trace_image item) (image_step item t) texts
        (image_found-IsTracked item (find_key key t.calls) t h (find_key-in key t h))
        (if-keeps IsTracked (has_kind item assistant_text) (add shown t) last
          (add-IsTracked shown t h refl)
          (if-keeps IsTracked (has_kind item status) (status_step item t) t
            (status_step-IsTracked item t h) h)))
