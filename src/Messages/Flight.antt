-- ===== src/Messages/Flight.antt =====
-- At most one message of a task is in flight: the transitions of message-controller.ts that only
-- rewrite the stored state.
pub mod Requests
pub mod Reach
use palmagent.Common.{sym}
use mathlib.Core.Path.{subst}
use palmagent.Common.{
  ℕ, ◌+◌, ◌≤◌, String, ◌≡◌, refl, inl, inr, Option-cases, any-append, leb, Bool, true, false, ◌&&◌,
  not, Option, none, some, List, [], ◌∷◌, ◌++◌, map, count, find, modify, any, count-eq-zero,
  count-append, count-modify-le, count-modify_off, count-map_off, count-map_never, Result, ok, err,
  checked, answer, checked-keeps, answer-keeps, arith, eq_iff, find_sound, ◌==◌, string_eq,
  if◌then◌else◌, Bool-cases, Failure, ltb, or_else, is_some, is_none,
}
use palmagent.Messages.Types.{
  Mode, Status, queued, sending, rejected, unknown, cancelled, delivered, StoredMessage,
  MessageState, SubmitMessage, MessageAction, edit, renew, release, delete, MessageQueue,
  is_sending, is_queued, is_unconfirmed, is_blocking, is_send, Undelivered, Settlement, accepted,
  refused, thrown,
}
use palmagent.Messages.Transitions.{
  save, snapshot, by_id, begin_run, adopt_run, reject_before_start, reject_sending,
  starting_runtime, stop_waiting, requeue, is_message, recover, recover_message, pause, finish_run,
  lose_sending, confirm_delivery, delivery_failed, steer_settled, undelivered_status,
  settle_message, shared_error,
}
use palmagent.Messages.Controller.{
  World, Host, raise_if, has_unconfirmed, may_send, send_now, send_found, dispatch, start_next,
  claim, start, finish_start, after_failed_start, failure_text, pump, next_message, mark_sending,
}
use palmagent.Messages.Requests.{
  enqueue, accept, launch, submit_known, act_on_found, submit, submit_new, submit_again, admission,
  revise, revise_message, act_on, action, send_message, send_checks, resume, resume_checks, finish,
  new_message, edit_view, require_lease, stale,
}

abbrev pub in_flight : StoredMessage → Bool
in_flight m = is_unconfirmed m.status

abbrev pub IsSingle : MessageState → Type 0
IsSingle s = count in_flight s.messages ≤ 1

pub begin_run-IsSingle :
    (run : String) (i c : Option String) (s : MessageState)
    → IsSingle s
    → IsSingle (begin_run run i c s)
unfolding begin_run
begin_run-IsSingle run i c s h =
    omega (arith, count-map_off in_flight (adopt_run run) s.messages (λ x. ground arith))

pub reject_before_start-IsSingle :
    (e : String) (s : MessageState) → IsSingle s → IsSingle (reject_before_start e s)
unfolding reject_before_start
reject_before_start-IsSingle e s h =
    ground (arith, count-map_off in_flight (reject_sending e) s.messages (λ x. ground arith))

pub starting_runtime-IsSingle : (s : MessageState) → IsSingle s → IsSingle (starting_runtime s)
unfolding starting_runtime
starting_runtime-IsSingle s h = h

pub pause-IsSingle : (s : MessageState) → IsSingle s → IsSingle (pause s)
unfolding pause
pause-IsSingle s h = h

pub stop_waiting-IsSingle : (s : MessageState) → IsSingle s → IsSingle (stop_waiting s)
unfolding stop_waiting
stop_waiting-IsSingle s h = ground (
  arith,
  count-modify_off in_flight (is_message s.initial_message_id) requeue s.messages
      (λ x. ground arith),
)

pub recover-IsSingle : (live : Bool) (s : MessageState) → IsSingle s → IsSingle (recover live s)
unfolding recover
recover-IsSingle live s h =
    omega (arith, count-map_off in_flight (recover_message live s) s.messages (λ x. ground arith))

pub finish_run-IsSingle :
    (f : Bool) (e : Option String) (s : MessageState) → IsSingle s → IsSingle (finish_run f e s)
unfolding finish_run
finish_run-IsSingle f e s h =
    omega (arith, count-map_off in_flight lose_sending s.messages (λ x. ground arith))

pub confirm_delivery-IsSingle :
    (id : String) (s : MessageState) → IsSingle s → IsSingle (confirm_delivery id s)
unfolding confirm_delivery
confirm_delivery-IsSingle id s h = ground (
  arith,
  count-modify_off in_flight (by_id id) (λ m. record m { status = delivered; error = none })
      s.messages (λ x. ground arith),
)

-- A late report of the message `id` may be taken while the message is still unconfirmed.
abbrev pub awaits : String → MessageState → Bool
awaits id s = elim (find (by_id id) s.messages) [ none ↦ true | some m ↦ in_flight m ]

pub count-modify_awaits :
    (id : String) (f : StoredMessage → StoredMessage) (xs : List StoredMessage)
    → (elim (find (by_id id) xs) [ none ↦ true | some m ↦ in_flight m ]) ≡ true
    → count in_flight (modify (by_id id) f xs) ≤ count in_flight xs
count-modify_awaits id f [] h = omega arith
count-modify_awaits id f (x ∷ xs) h = ground (arith, count-modify_awaits id f xs)

pub delivery_failed-IsSingle :
    (closed : Bool) (id : String) (u : Undelivered) (s : MessageState)
    → awaits id s ≡ true
    → IsSingle s
    → IsSingle (delivery_failed closed id u s)
unfolding delivery_failed
delivery_failed-IsSingle closed id u s a h = ground (
  arith,
  count-modify_awaits id
      (λ m. record m { status = undelivered_status u; error = some (shared_error u) }) s.messages a,
)

pub steer_settled-IsSingle :
    (closed : Bool) (id : String) (r : Settlement) (s : MessageState)
    → awaits id s ≡ true
    → IsSingle s
    → IsSingle (steer_settled closed id r s)
unfolding steer_settled
steer_settled-IsSingle closed id r s a h =
    ground (arith, count-modify_awaits id (settle_message r) s.messages a)
