-- ===== src/Messages/Recovery.antt =====
-- What a restart makes of the messages of message-controller.ts: nothing is sent twice.
use palmagent.Common.{
  eq_iff, String, ◌≡◌, refl, ap, ◌⊎◌, inl, inr, Bool, true, false, ◌&&◌, not, Option, none, some,
  List, [], ◌∷◌, map, any, Bool-cases, arith, string_eq, option_eq,
}
use palmagent.Messages.Types.{
  Status, queued, sending, unknown, StoredMessage, MessageState, is_sending,
}
use palmagent.Messages.Transitions.{recover, recover_message, is_message, lost_in_flight}

-- How a message comes out of a recovery: as it was, unless it was being sent; then it waits again
-- only if its run had not started and no process is left, and else is unknown.
pub data Recovered (live : Bool) (s : MessageState) (m : StoredMessage)
    : StoredMessage → Type 0 where
  kept : is_sending m.status ≡ false → Recovered live s m m
  requeued :
      m.status ≡ sending
      → live ≡ false
      → s.runtime_started ≡ false
      → s.initial_message_id ≡ some m.id
      → Recovered live s m (record m { status = queued; run_id = none })
  lost :
      (error : String)
      → m.status ≡ sending
      → Recovered live s m (record m { status = unknown; error = some error })

-- Two lists of one length whose members are related in order.
abbrev pub Pointwise :
    (StoredMessage → StoredMessage → Type 0) → List StoredMessage → List StoredMessage → Type 0
Pointwise R [] [] = Unit
Pointwise R (x ∷ xs) (y ∷ ys) = R x y × Pointwise R xs ys
Pointwise R _ _ = ⊥

sending_of_test : (s : Status) → is_sending s ≡ true → s ≡ sending
sending_of_test s h = ground arith

initial_of_test : (o : Option String) (m : StoredMessage) → is_message o m ≡ true → o ≡ some m.id
initial_of_test none m h = cc
initial_of_test (some id) m h = ap some (ground (arith, eq_iff m.id id))

recover_message-Recovered :
    (live : Bool) (s : MessageState) (m : StoredMessage)
    → Recovered live s m (recover_message live s m)
unfolding recover_message
recover_message-Recovered live s m = elim (Bool-cases (is_sending m.status)) [
  | inr n ↦ rw n (kept n)
  | inl y ↦
      rw y
        (elim (Bool-cases
          (not live && not s.runtime_started && is_message s.initial_message_id m)) [
            | inl f ↦ rw f (
                requeued (sending_of_test m.status y) (ground arith) (ground arith)
                  (initial_of_test s.initial_message_id m (ground arith)))
            | inr f ↦ rw f (lost _ (sending_of_test m.status y))
          ])
]

map-Pointwise :
    (live : Bool) (s : MessageState) (xs : List StoredMessage)
    → Pointwise (Recovered live s) xs (map (recover_message live s) xs)
map-Pointwise live s [] = tt
map-Pointwise live s (x ∷ xs) = (recover_message-Recovered live s x, map-Pointwise live s xs)

never_sending :
    (live : Bool) (s : MessageState) (xs : List StoredMessage)
    → any (λ m. is_sending m.status) (map (recover_message live s) xs) ≡ false
unfolding recover_message
never_sending live s [] = refl
never_sending live s (x ∷ xs) = ground (arith, never_sending live s xs)

lost_if_unknown :
    (live : Bool) (s : MessageState) (xs : List StoredMessage)
    → s.runtime_started ≡ true ⊎ (live ≡ true)
    → any (λ m. is_sending m.status) xs ≡ true
    → any (lost_in_flight live s) xs ≡ true
lost_if_unknown live s [] c h = cc
lost_if_unknown live s (x ∷ xs) c h = ground (arith, lost_if_unknown live s xs)

-- After a recovery no message is being sent; each message is as it was, or was being sent and waits
-- again because its run never started and nothing is left of it, or was being sent and is unknown.
pub recover_no_resend :
    (live : Bool) (s : MessageState)
    → (any (λ m. is_sending m.status) (recover live s).messages ≡ false)
      × Pointwise (Recovered live s) s.messages (recover live s).messages
unfolding recover
recover_no_resend live s = (never_sending live s s.messages, map-Pointwise live s s.messages)

-- If the run had started or is alive, a recovery with a message that was being sent pauses the queue.
pub recover_pauses :
    (live : Bool) (s : MessageState)
    → s.runtime_started ≡ true ⊎ (live ≡ true)
    → any (λ m. is_sending m.status) s.messages ≡ true
    → (recover live s).paused ≡ true
unfolding recover
recover_pauses live s c h = ground (arith, lost_if_unknown live s s.messages c h)
