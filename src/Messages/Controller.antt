-- ===== src/Messages/Controller.antt =====
-- The operations of apps/server/src/modules/tasks/application/use-cases/message-controller.ts that
-- call the task service, on the state of one task. The task service is the parameter `Host`: its
-- own state is `O`, and `start` may write the state of the queue before it returns or throws.
use palmagent.Common.{
  ℕ, String, Bool, true, ◌&&◌, ◌||◌, not, Option, none, some, List, [], ◌∷◌, find, modify, any,
  is_none, is_some, or_else, ltb, nat_eq, string_eq, option_eq, if◌then◌else◌, Failure, application,
  unexpected, conflict, Result, ok, err, ◌>>◌, refuse_if, checked,
}
use palmagent.Messages.Types.{
  Mode, sending, rejected, MessageSettings, StoredMessage, MessageState, SubmitMessage, is_sending,
  is_queued, is_unconfirmed, is_blocking,
}
use palmagent.Messages.Transitions.{save, by_id}

pub record World (O : Type 0) : Type 0 where
  pub queue : MessageState
  pub outside : O

-- `assert_writable` and `validate_submission` return what they throw.
pub record Host (O : Type 0) : Type 0 where
  pub assert_writable : World O → Option Failure
  pub validate_submission : World O → SubmitMessage → Option Failure
  pub can_start : O → Bool
  pub settings : O → MessageSettings
  pub start : StoredMessage → World O → Option Failure × World O
  pub steer : StoredMessage → O → O
  pub save_attachments : Option (List String) → Result (Option (List String))
  pub load_attachments : Option (List String) → Option (List String)
  pub digest : SubmitMessage → String

abbrev pub edit_ms : ℕ
edit_ms = 60000

abbrev pub refusal : String → Failure
refusal text = application conflict text

abbrev pub raise_if : Option Failure → Result (Unit {0})
raise_if none = ok tt
raise_if (some e) = err e

abbrev pub has_unconfirmed : MessageState → Bool
has_unconfirmed s = any (λ m. is_unconfirmed m.status) s.messages

abbrev pub unconfirmed_text : String
unconfirmed_text = "Wait for the previous message delivery to be confirmed."

-- `error.message`
abbrev pub failure_text : Failure → String
failure_text (application c text) = text
failure_text (unexpected text) = text

-- `entry.editToken && (entry.editingUntil ?? 0) > Date.now()`
abbrev pub is_leased : ℕ → StoredMessage → Bool
is_leased now m = is_some m.edit_token && ltb now (or_else m.editing_until 0)

module _ {O : Type 0} (host : Host O) where
  -- The handler of `start`: a message whose run never began is rejected, else the error goes on.
  unfoldable pub after_failed_start : String → Failure → World O → Result (Unit {0}) × World O
  unfolding save
  after_failed_start id e w =
      if is_none w.queue.run_id
        && any (λ m. is_sending m.status)
            (elim (find (by_id id) w.queue.messages) [ none ↦ [] | some m ↦ m ∷ [] ])
      then (
        ok tt,
        record w {
          queue = save (record (w.queue) {
            messages =
                modify (by_id id)
                  (λ m. record m { status = rejected; error = some (failure_text e) })
                  (w.queue).messages;
            paused = true;
          });
        },
      )
      else (err e, w)

  unfoldable pub finish_start : String → Option Failure × World O → Result (Unit {0}) × World O
  finish_start id (none, w) = (ok tt, w)
  finish_start id (some e, w) = after_failed_start id e w

  unfoldable pub start : StoredMessage → World O → Result (Unit {0}) × World O
  unfolding finish_start after_failed_start
  start m w = finish_start m.id (host.start m w)

  abbrev pub claim : Option String → StoredMessage → StoredMessage
  claim run m = record m { status = sending; mode = Mode.send; run_id = run }

  -- The first part of `sendNow`, which may throw and writes nothing.
  unfoldable pub may_send : World O → Result (Unit {0})
  may_send w = do
    refuse_if (has_unconfirmed w.queue) (refusal unconfirmed_text)
    refuse_if (is_none (w.queue).run_id && not (host.can_start w.outside))
        (refusal "The task cannot start a new run yet.")

  -- The rest of `sendNow`, with the message found: write, then start a run or steer the active one.
  unfoldable pub dispatch : StoredMessage → World O → Result (Unit {0}) × World O
  unfolding save start
  dispatch m w =
      let run = (w.queue).run_id in
      let claimed = claim run m in
      let s =
        save (record (w.queue) { messages = modify (by_id m.id) (claim run) (w.queue).messages }) in
      let written = record w { queue = s } in
      if is_none run
      then start claimed written
      else (ok tt, record written { outside = host.steer claimed w.outside })

  unfoldable pub send_found : Option StoredMessage → World O → Result (Unit {0}) × World O
  send_found none w = (err (unexpected "TypeError"), w)
  send_found (some m) w = dispatch m w

  unfoldable pub send_now : String → World O → Result (Unit {0}) × World O
  unfolding may_send send_found dispatch
  send_now id w = checked (may_send w) w (λ _. send_found (find (by_id id) (w.queue).messages) w)

  -- `next && (next.editingUntil ?? 0) <= now`: the message that `pump` claims.
  unfoldable pub next_message : ℕ → World O → Option StoredMessage
  next_message now w =
      if (w.queue).paused || is_some (w.queue).run_id || not (host.can_start w.outside)
      then none
      else if any (λ m. is_blocking m.status) (w.queue).messages
      then none
      else elim (find (λ m. is_queued m.status) (w.queue).messages) [
        | none ↦ none
        | some next ↦ if ltb now (or_else next.editing_until 0) then none else some next
      ]

  abbrev pub mark_sending : StoredMessage → StoredMessage
  mark_sending m = record m { status = sending }

  unfoldable pub start_next : Option StoredMessage → World O → Result (Unit {0}) × World O
  unfolding start save
  start_next none w = (ok tt, w)
  start_next (some next) w = start (mark_sending next) (record w {
    queue = save (record (w.queue) {
      messages = modify (λ m. is_queued m.status) mark_sending (w.queue).messages;
    });
  })

  unfoldable pub pump : ℕ → World O → Result (Unit {0}) × World O
  unfolding next_message start_next
  pump now w = start_next (next_message now w) w
