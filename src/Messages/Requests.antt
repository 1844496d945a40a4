-- ===== src/Messages/Requests.antt =====
-- The client's requests of message-controller.ts: submit, the actions on one message, resume, and
-- `finish`, which a run's end calls.
use palmagent.Common.{
  ℕ, ◌+◌, String, Bool, false, ◌&&◌, ◌||◌, not, Option, none, some, List, [], ◌∷◌, ◌++◌, find,
  modify, count, map, is_none, is_some, or_else, or_option, ltb, leb, ◌==◌, nat_eq, string_eq,
  option_eq, if◌then◌else◌, Result, ok, err, ◌>>=◌, ◌>>◌, refuse_if, checked, answer,
}
use palmagent.Messages.Types.{
  queued, cancelled, merge_settings, has_settings, StoredMessage, SubmitMessage, MessageAction,
  edit, renew, release, delete, MessageQueue, is_sending, is_queued, is_delivered, is_settled,
  is_send,
}
use palmagent.Messages.Transitions.{snapshot, save, by_id, finish_run}
use palmagent.Messages.Controller.{
  World, Host, edit_ms, refusal, raise_if, has_unconfirmed, unconfirmed_text, is_leased, send_now,
  pump,
}

abbrev pub queue_limit : ℕ
queue_limit = 100

abbrev pub is_pending : StoredMessage → Bool
is_pending m = not (is_settled m.status)

abbrev pub set_images : String → Option (List String) → MessageQueue → MessageQueue
set_images id images q = record q {
  messages = map (λ m. if m.id == id then record m { images = images } else m) q.messages;
}

abbrev pub version_of : MessageAction → Option ℕ
version_of (edit version token) = some version
version_of (renew token) = none
version_of (MessageAction.save token version text skills images) = some version
version_of (release token) = none
version_of (delete version) = some version
version_of (MessageAction.send version run) = some version

-- `editToken !== token || (editingUntil ?? 0) <= Date.now()`
abbrev pub lease_lost : ℕ → String → StoredMessage → Bool
lease_lost now token m = not (m.edit_token == some token) || leb (or_else m.editing_until 0) now

abbrev pub held_elsewhere : ℕ → String → StoredMessage → Bool
held_elsewhere now token m =
    is_some m.edit_token && not (m.edit_token == some token) && ltb now (or_else m.editing_until 0)

abbrev pub released : StoredMessage → StoredMessage
released m = record m { edit_token = none; editing_until = none }

unfoldable pub require_lease : ℕ → String → StoredMessage → Result (Unit {0})
require_lease now token m = do
  refuse_if (not (is_queued m.status)) (refusal "This message is no longer waiting.")
  refuse_if (lease_lost now token m)
      (refusal "The edit session expired. Your draft is preserved; reopen the message.")

module _ {O : Type 0} (host : Host O) where
  -- The checks of `submit`, in their order, for a message identifier that is new.
  unfoldable pub admission : SubmitMessage → World O → Result (Unit {0})
  admission req w = do
    raise_if (host.assert_writable w)
    raise_if (host.validate_submission w req)
    refuse_if (leb queue_limit (count is_pending (w.queue).messages))
        (refusal "The message queue is full.")
    refuse_if (is_send req.mode && not (req.expected_run_id == (w.queue).run_id))
        (refusal "The active run changed. Review the message and send again.")
    refuse_if (is_send req.mode && has_unconfirmed w.queue) (refusal unconfirmed_text)
    refuse_if (is_send req.mode && (is_none (w.queue).run_id && not (host.can_start w.outside)))
        (refusal "The task cannot start a new run yet.")
    refuse_if
        (is_send req.mode
          && (is_some (w.queue).run_id
              && (elim req.settings [ none ↦ false | some s ↦ has_settings s ])))
        (refusal "Model and permission changes apply to queued messages or the next run.")

  abbrev pub new_message : SubmitMessage → Option (List String) → World O → StoredMessage
  new_message req attachments w = record {
    id = req.client_message_id;
    version = 1;
    mode = req.mode;
    text = req.text;
    skills = req.skills;
    images = none;
    attachments = attachments;
    settings = some (elim req.settings [
      | none ↦ host.settings w.outside
      | some patch ↦ merge_settings (host.settings w.outside) patch
    ]);
    status = queued;
    run_id = none;
    error = none;
    editing_until = none;
    fingerprint = host.digest req;
    edit_token = none;
  }

  unfoldable pub enqueue : StoredMessage → World O → World O
  unfolding save
  enqueue m w = record w {
    queue = save (record (w.queue) { messages = (w.queue).messages ++ m ∷ [] });
  }

  unfoldable pub launch : ℕ → SubmitMessage → World O → Result (Unit {0}) × World O
  launch now req w =
      if is_send req.mode then send_now host req.client_message_id w else pump host now w

  unfoldable pub accept :
      ℕ → SubmitMessage → Option (List String) → World O → Result MessageQueue × World O
  unfolding enqueue launch
  accept now req attachments w =
      answer (λ v. snapshot v.queue) (launch now req (enqueue (new_message req attachments w) w))

  unfoldable pub submit_new : ℕ → SubmitMessage → World O → Result MessageQueue × World O
  unfolding admission accept
  submit_new now req w =
      checked (do admission req w; host.save_attachments req.images) w (λ a. accept now req a w)

  -- A submission whose identifier is known only reads: its receipt was lost.
  unfoldable pub submit_again :
      SubmitMessage → StoredMessage → World O → Result MessageQueue × World O
  submit_again req old w =
      if not (old.fingerprint == host.digest req)
      then (err (refusal "This message ID was already used with different content."), w)
      else (ok (snapshot w.queue), w)

  unfoldable pub submit_known :
      ℕ → SubmitMessage → Option StoredMessage → World O → Result MessageQueue × World O
  unfolding submit_new submit_again
  submit_known now req (some old) w = submit_again req old w
  submit_known now req none w = submit_new now req w

  unfoldable pub submit : ℕ → SubmitMessage → World O → Result MessageQueue × World O
  unfolding submit_known
  submit now req w = submit_known now req (find (by_id req.client_message_id) (w.queue).messages) w

  -- What an action other than `send` makes of its message, or the exception it throws.
  unfoldable pub revise : ℕ → MessageAction → StoredMessage → Result StoredMessage
  unfolding require_lease
  revise now (delete version) m = do
    refuse_if (is_sending m.status || is_delivered m.status)
        (refusal "The message has already been sent.")
    refuse_if (is_leased now m) (refusal "This message is being edited.")
    ok (record m { status = cancelled })
  revise now (edit version token) m = do
    refuse_if (not (is_queued m.status)) (refusal "This message is no longer waiting.")
    refuse_if (held_elsewhere now token m)
        (refusal "This message is being edited on another device.")
    ok (record m { edit_token = some token; editing_until = some (now + edit_ms) })
  revise now (renew token) m = do
    require_lease now token m
    ok (record m { editing_until = some (now + edit_ms) })
  revise now (release token) m = do require_lease now token m; ok (released m)
  revise now (MessageAction.save token version text skills images) m = do
    require_lease now token m
    attachments ← host.save_attachments images
    ok (
        released (record m {
          text = text;
          attachments = attachments;
          images = none;
          skills = skills;
          version = m.version + 1;
        }))
  revise now (MessageAction.send version run) m = ok m

  -- The images that an `edit` returns to its client beside the snapshot.
  abbrev pub edit_view : MessageAction → StoredMessage → World O → MessageQueue
  edit_view (edit version token) m w =
      set_images m.id (or_option (host.load_attachments m.attachments) m.images) (snapshot w.queue)
  edit_view _ m w = snapshot w.queue

  unfoldable pub revise_message :
      ℕ → MessageAction → StoredMessage → World O → Result MessageQueue × World O
  unfolding revise save
  revise_message now a m w = checked (revise now a m) w λ next. answer (edit_view a m) (
      pump host now (record w {
        queue =
            save
              (record (w.queue) { messages = modify (by_id m.id) (λ _. next) (w.queue).messages });
      }))

  unfoldable pub send_checks : ℕ → Option String → StoredMessage → World O → Result (Unit {0})
  send_checks now run m w = do
    refuse_if (not (is_queued m.status)) (refusal "Only waiting messages can be sent.")
    refuse_if (is_leased now m) (refusal "Finish editing before sending.")
    refuse_if (not (run == (w.queue).run_id)) (refusal "The active run changed. Try again.")

  unfoldable pub send_message :
      ℕ → Option String → StoredMessage → World O → Result MessageQueue × World O
  unfolding send_checks
  send_message now run m w =
      checked (send_checks now run m w) w
        (λ _. answer (λ v. snapshot v.queue) (send_now host m.id w))

  unfoldable pub act_on :
      ℕ → MessageAction → StoredMessage → World O → Result MessageQueue × World O
  unfolding send_message revise_message
  act_on now (MessageAction.send version run) m w = send_message now run m w
  act_on now (edit version token) m w = revise_message now (edit version token) m w
  act_on now a m w = revise_message now a m w

  -- `"version" in action && action.version !== entry.version`
  abbrev pub stale : MessageAction → StoredMessage → Bool
  stale a m = elim (version_of a) [ none ↦ false | some v ↦ not (v == m.version) ]

  unfoldable pub act_on_found :
      ℕ → MessageAction → Option StoredMessage → World O → Result MessageQueue × World O
  unfolding act_on
  act_on_found now a none w = (err (refusal "Message not found."), w)
  act_on_found now a (some m) w =
      if stale a m
      then (err (refusal "This message changed. Reload it before editing."), w)
      else act_on now a m w

  unfoldable pub action : ℕ → String → MessageAction → World O → Result MessageQueue × World O
  unfolding act_on_found
  action now id a w =
      checked (raise_if (host.assert_writable w)) w
        (λ _. act_on_found now a (find (by_id id) (w.queue).messages) w)

  unfoldable pub resume_checks : World O → Result (Unit {0})
  resume_checks w = do
    raise_if (host.assert_writable w)
    refuse_if (has_unconfirmed w.queue)
        (refusal "Resolve unconfirmed delivery before resuming the queue.")

  unfoldable pub resume : ℕ → World O → Result MessageQueue × World O
  unfolding resume_checks save
  resume now w = checked (resume_checks w) w (λ _.
      answer (λ v. snapshot v.queue)
        (pump host now (record w { queue = save (record (w.queue) { paused = false }) })))

  unfoldable pub finish : ℕ → Bool → Bool → Option String → World O → Result (Unit {0}) × World O
  finish now run_failed drain error w =
      let ended = record w { queue = finish_run run_failed error w.queue } in
      if not run_failed && drain then pump host now ended else (ok tt, ended)
