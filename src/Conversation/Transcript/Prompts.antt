-- ===== src/Conversation/Transcript/Prompts.antt =====
-- A compact transcript hides no request and no prompt: `presentTranscript` of
-- packages/shared/src/conversation.ts.
use palmagent.Common.{
  arith, or_right, ℕ, ◌≡◌, refl, ap, ◌∙◌, Bool, true, false, ◌&&◌, ◌||◌, not, Option, none, some,
  List, [], ◌∷◌, ◌++◌, ◌==◌, nat_eq, list_eq, map, keep, any, if◌then◌else◌, if-keeps, beq_refl,
}
use palmagent.Events.{get, says, status, result, question, approval_request}
use palmagent.Conversation.Log.{LogItem, kind_of, user_message, has_kind, payload}
use palmagent.Conversation.Transcript.Rows.{
  Activity, RunFailure, Row, activity, failure, message, Placed, placed, Transcript,
  empty_transcript, add_row, add_to_turn, forget, forget_failure, rows_of,
}
use palmagent.Conversation.Transcript.Flush.{flush}
use palmagent.Conversation.Transcript.{
  is_compacted, starts_run, stands_alone, begun, alone, turned, started, present_item,
  present_items, OutputMode, compact, verbose, message_row, present_transcript,
}
use palmagent.Conversation.Transcript.Keeps.{Has, failure-Has, append-Has, last-Has, flush-Has}

module _ (q : Row → Bool) (no_activity : (a : Activity) → q (activity a) ≡ false)
    (no_failure : (r : RunFailure) → q (failure r) ≡ false) where
  forget-Has :
      (o : Option ℕ) (rows : List Placed)
      → Has q no_activity no_failure rows
      → Has q no_activity no_failure (forget o rows)
  forget-Has none rows h = h
  forget-Has (some n) rows h =
      failure-Has q no_activity no_failure n (λ r. record r { previous = true }) rows h

  forget_failure-Has :
      (t : Transcript)
      → Has q no_activity no_failure t.rows
      → Has q no_activity no_failure (forget_failure t).rows
  forget_failure-Has t h = forget-Has t.failing t.rows h

  begun-Has :
      (item : LogItem) (t : Transcript)
      → Has q no_activity no_failure t.rows
      → Has q no_activity no_failure (begun item t).rows
  begun-Has item t h =
      if-keeps (λ (u : Transcript). Has q no_activity no_failure u.rows) (starts_run item)
        (forget_failure (flush false t)) t
        (forget_failure-Has (flush false t) (flush-Has q no_activity no_failure false t h)) h

  started-Has :
      (item : LogItem) (t : Transcript)
      → Has q no_activity no_failure t.rows
      → Has q no_activity no_failure (started item t).rows
  started-Has item t h =
      if-keeps (λ (u : Transcript). Has q no_activity no_failure u.rows)
        (has_kind item status && says (get "subtype" (payload item)) "turn_started") (flush false t)
        t (flush-Has q no_activity no_failure false t h) h

  turned-Has :
      (item : LogItem) (t : Transcript)
      → Has q no_activity no_failure t.rows
      → Has q no_activity no_failure (turned item t).rows
  turned-Has item t h =
      if-keeps (λ (u : Transcript). Has q no_activity no_failure u.rows) (has_kind item result)
        (flush false (add_to_turn item t)) (add_to_turn item t)
        (flush-Has q no_activity no_failure false (add_to_turn item t) h) h

  add_row-Has :
      (row : Row) (t : Transcript)
      → Has q no_activity no_failure t.rows
      → Has q no_activity no_failure (add_row row t).rows
  add_row-Has row t h = append-Has q no_activity no_failure t.rows (placed t.next row) h

  present_item-Has :
      (item : LogItem) (t : Transcript)
      → Has q no_activity no_failure t.rows
      → Has q no_activity no_failure (present_item item t).rows
  unfolding present_item
  present_item-Has item t h =
      let first = begun item t in
      let g = begun-Has item t h in
      let H : Transcript → Type 0 = λ (u : Transcript). Has q no_activity no_failure u.rows in
      let turn = turned item (started item first) in
      if-keeps H (is_compacted item) (flush false t)
        (if stands_alone item then alone item first else turn)
        (flush-Has q no_activity no_failure false t h)
        (if-keeps H (stands_alone item) (alone item first) turn
          (add_row-Has (message item.key item) (flush false first)
            (flush-Has q no_activity no_failure false first g))
          (turned-Has item (started item first) (started-Has item first g)))

  present_items-Has :
      (items : List LogItem) (t : Transcript)
      → Has q no_activity no_failure t.rows
      → Has q no_activity no_failure (present_items items t).rows
  present_items-Has [] t h = h
  present_items-Has (item ∷ items) t h =
      present_items-Has items (present_item item t) (present_item-Has item t h)

  -- An item that stands alone adds its row.
  alone-Has :
      (item : LogItem) (t : Transcript)
      → is_compacted item ≡ false
      → stands_alone item ≡ true
      → q (message item.key item) ≡ true
      → Has q no_activity no_failure (present_item item t).rows
  unfolding present_item
  alone-Has item t c s h =
      rw (c, s)
        (last-Has q no_activity no_failure (flush false (begun item t)).rows
          (placed (flush false (begun item t)).next (message item.key item)) h)

  any-rows : (rows : List Placed) → any q (rows_of rows) ≡ any (λ (p : Placed). q p.row) rows
  any-rows [] = refl
  any-rows (p ∷ ps) = ap (λ (b : Bool). q p.row || b) (any-rows ps)

-- The row of a message that stands alone, under the key of an item.
abbrev pub shows : ℕ → Row → Bool
shows key (activity a) = false
shows key (failure r) = false
shows key (message k item) = (k == key) && ((item.key == key) && stands_alone item)

present_items-append :
    (xs ys : List LogItem) (t : Transcript)
    → present_items (xs ++ ys) t ≡ present_items ys (present_items xs t)
present_items-append [] ys t = refl
present_items-append (x ∷ xs) ys t = present_items-append xs ys (present_item x t)

shows-own :
    (item : LogItem) → stands_alone item ≡ true → shows item.key (message item.key item) ≡ true
shows-own item s = rw (beq_refl item.key, s) refl

verbose-shows :
    (item : LogItem) (before after : List LogItem)
    → is_compacted item ≡ false
    → shows item.key (message item.key item) ≡ true
    → any
        (shows item.key)
        (map message_row (keep (λ i. not (is_compacted i)) (before ++ item ∷ after)))
      ≡ true
verbose-shows item [] after c s = rw (c, s) refl
verbose-shows item (x ∷ before) after c s =
    let rest = keep (λ i. not (is_compacted i)) (before ++ item ∷ after) in
    if-keeps (λ (items : List LogItem). any (shows item.key) (map message_row items) ≡ true)
      (not (is_compacted x)) (x ∷ rest) rest
      (or_right (shows item.key (message_row x)) (any (shows item.key) (map message_row rest))
        (verbose-shows item before after c s))
      (verbose-shows item before after c s)

pub stands_alone-shows :
    (mode : OutputMode) (before after : List LogItem) (item : LogItem) (live : Bool)
    → is_compacted item ≡ false
    → stands_alone item ≡ true
    → any (shows item.key) (present_transcript (before ++ item ∷ after) mode live) ≡ true
unfolding present_transcript
stands_alone-shows verbose before after item live c s =
    verbose-shows item before after c (shows-own item s)
stands_alone-shows compact before after item live c s =
    let q = shows item.key in
    let t = present_items before empty_transcript in
    let shown =
      present_items-Has q (λ a. refl) (λ r. refl) after (present_item item t)
        (alone-Has q (λ a. refl) (λ r. refl) item t c s (shows-own item s)) in
    rw (present_items-append before (item ∷ after) empty_transcript) (
      any-rows q (λ a. refl) (λ r. refl) (flush live (present_items (item ∷ after) t)).rows
      ∙ flush-Has q (λ a. refl) (λ r. refl) live (present_items (item ∷ after) t) shown)

-- A request of the user, a question of an agent, or a request for its approval.
pub data Asks (item : LogItem) : Type 0 where
  by_user : user_message item ≡ true → Asks item
  with_question : kind_of item.content ≡ question → Asks item
  for_approval : kind_of item.content ≡ approval_request → Asks item

stands_alone-Asks : (item : LogItem) → Asks item → stands_alone item ≡ true
stands_alone-Asks item (by_user h) = ground (arith, h)
stands_alone-Asks item (with_question h) =
    let k : has_kind item question ≡ true = rw h refl in ground (arith, k)
stands_alone-Asks item (for_approval h) =
    let k : has_kind item approval_request ≡ true = rw h refl in ground (arith, k)

-- Every request of the user, every question and every approval request of a log has a row of its own
-- in the transcript, under its key, compact or verbose, live or not, whatever stands before and after it.
pub present_transcript-shows :
    (mode : OutputMode) (before after : List LogItem) (item : LogItem) (live : Bool)
    → is_compacted item ≡ false
    → Asks item
    → any (shows item.key) (present_transcript (before ++ item ∷ after) mode live) ≡ true
present_transcript-shows mode before after item live c a =
    stands_alone-shows mode before after item live c (stands_alone-Asks item a)
