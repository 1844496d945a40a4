-- ===== src/Conversation/Activity/Ended.antt =====
-- A run that ended is not restarted by what comes after it, and a prompt blocks until it is resolved:
-- packages/shared/src/conversation-activity.ts.
use palmagent.Common.{
  ◌≡◌, refl, ◌∙◌, Bool, true, false, ◌||◌, List, [], ◌∷◌, ◌++◌, any, arith, if◌then◌else◌,
}
use palmagent.Conversation.Log.{LogItem}
use palmagent.Conversation.Activity.{
  TranscriptActivity, ended, advance, replay, is_boundary, is_end,
}

left : (a b : Bool) → (a || b) ≡ false → a ≡ false
left a b h = ground arith

right : (a b : Bool) → (a || b) ≡ false → b ≡ false
right a b h = ground arith

same {ℓ} : {A : Type ℓ} (b : Bool) (x : A) → (if b then x else x) ≡ x
same true x = refl
same false x = refl

advance-ended : (item : LogItem) → is_boundary item ≡ false → advance item ended ≡ ended
unfolding advance
advance-ended item h = rw h (same (is_end item) ended)

replay-ended : (items : List LogItem) → any is_boundary items ≡ false → replay items ended ≡ ended
replay-ended [] h = refl
replay-ended (item ∷ items) h =
    rw (advance-ended item (left (is_boundary item) (any is_boundary items) h))
      (replay-ended items (right (is_boundary item) (any is_boundary items) h))

replay-append :
    (xs ys : List LogItem) (state : TranscriptActivity)
    → replay (xs ++ ys) state ≡ replay ys (replay xs state)
replay-append [] ys state = refl
replay-append (x ∷ xs) ys state = replay-append xs ys (advance x state)

advance-end :
    (item : LogItem) (state : TranscriptActivity)
    → is_boundary item ≡ false
    → is_end item ≡ true
    → advance item state ≡ ended
unfolding advance
advance-end item state h e = rw (h, e) refl

-- A log that shows the end of a run, and no dispatch, request or turn start after it, reads as ended,
-- whatever stands before the end and however much prose, tool output and metadata follows it.
pub replay_ended :
    (before after : List LogItem) (last : LogItem) (state : TranscriptActivity)
    → is_boundary last ≡ false
    → is_end last ≡ true
    → any is_boundary after ≡ false
    → replay (before ++ last ∷ after) state ≡ ended
replay_ended before after last state b e h =
    replay-append before (last ∷ after) state
    ∙ rw (advance-end last (replay before state) b e) (replay-ended after h)
