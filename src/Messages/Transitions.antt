-- ===== src/Messages/Transitions.antt =====
-- The transitions of apps/server/src/modules/tasks/application/use-cases/message-controller.ts that
-- only rewrite the stored state of one task. `save` writes the state with the next revision.
use palmagent.Common.{
  ◌+◌, String, Bool, true, false, ◌&&◌, ◌||◌, not, Option, none, some, [], map, keep, find, modify,
  any, is_none, is_some, or_else, ◌==◌, string_eq, option_eq, if◌then◌else◌,
}
use palmagent.Messages.Types.{
  Status, queued, delivered, rejected, unknown, StoredMessage, CompactionStatus, Undelivered,
  Settlement, accepted, refused, thrown, completed, failed, ContextCompaction, MessageState,
  PendingMessage, MessageQueue, is_sending, is_delivered, is_unconfirmed, is_settled, is_running,
}

abbrev pub fresh_state : MessageState
fresh_state = record {
  revision = 0;
  paused = false;
  run_id = none;
  compaction = none;
  messages = [];
  interactive = false;
  initial_message_id = none;
  runtime_started = false;
}

-- `this.db.readMessageState(id) ?? { revision: 0, ... }`
abbrev pub stored_state : Option MessageState → MessageState
stored_state o = or_else o fresh_state

abbrev pub public_message : StoredMessage → PendingMessage
public_message m = record {
  id = m.id;
  version = m.version;
  mode = m.mode;
  text = m.text;
  skills = m.skills;
  images = m.images;
  attachments = m.attachments;
  settings = m.settings;
  status = m.status;
  run_id = m.run_id;
  error = m.error;
  editing_until = m.editing_until;
}

unfoldable pub snapshot : MessageState → MessageQueue
snapshot s = record {
  compaction = s.compaction;
  revision = s.revision;
  paused = s.paused;
  run_id = s.run_id;
  messages = map public_message (keep (λ m. not (is_settled m.status)) s.messages);
}

unfoldable pub save : MessageState → MessageState
save s = record s { revision = s.revision + 1 }

abbrev pub by_id : String → StoredMessage → Bool
by_id id m = m.id == id

-- `some_id === m.id` for an id that may be absent
abbrev pub is_message : Option String → StoredMessage → Bool
is_message none m = false
is_message (some id) m = m.id == id

abbrev pub adopt_run : String → StoredMessage → StoredMessage
adopt_run run m =
    if is_sending m.status && is_none m.run_id then record m { run_id = some run } else m

-- `run` is the identifier that the generator returns.
unfoldable pub begin_run : String → Option String → Option String → MessageState → MessageState
unfolding save
begin_run run initial compaction s = save (record s {
  run_id = some run;
  initial_message_id = initial;
  runtime_started = false;
  compaction = elim compaction [
    | none ↦ none
    | some request ↦
        some (record { request_id = request; status = CompactionStatus.running; error = none })
  ];
  messages = map (adopt_run run) s.messages;
  interactive = true;
})

abbrev pub reject_sending : String → StoredMessage → StoredMessage
reject_sending error m =
    if is_sending m.status then record m { status = rejected; error = some error } else m

unfoldable pub reject_before_start : String → MessageState → MessageState
unfolding save
reject_before_start error s =
    if s.runtime_started
    then s
    else save (record s {
      messages = map (reject_sending error) s.messages;
      run_id = none;
      paused = true;
    })

unfoldable pub starting_runtime : MessageState → MessageState
unfolding save
starting_runtime s = save (record s { runtime_started = true })

abbrev pub end_compaction :
    CompactionStatus → Option String → Option ContextCompaction → Option ContextCompaction
end_compaction status error none = none
end_compaction status error (some c) =
    if is_running c.status then some (record c { status = status; error = error }) else some c

-- `{ ...compaction, status }` keeps the error that was there.
abbrev pub complete_compaction : Option ContextCompaction → Option ContextCompaction
complete_compaction none = none
complete_compaction (some c) =
    if is_running c.status then some (record c { status = completed }) else some c

abbrev pub requeue : StoredMessage → StoredMessage
requeue m = if is_sending m.status then record m { status = queued; run_id = none } else m

unfoldable pub stop_waiting : MessageState → MessageState
unfolding save
stop_waiting s = save (record s {
  messages =
      if s.runtime_started
      then s.messages
      else modify (is_message s.initial_message_id) requeue s.messages;
  run_id = none;
  paused = true;
  compaction = end_compaction failed (some "Context compaction was stopped.") s.compaction;
})

-- The body of the loop of `recover`: a send whose acknowledgement was lost is not sent again,
-- unless it was the first message of a run whose process never started.
unfoldable pub recover_message : Bool → MessageState → StoredMessage → StoredMessage
recover_message live s m =
    if is_sending m.status
    then (if not live && not s.runtime_started && is_message s.initial_message_id m
        then record m { status = queued; run_id = none }
        else record m {
          status = unknown;
          error = some "Delivery could not be confirmed after reconnecting.";
        })
    else m

abbrev pub lost_in_flight : Bool → MessageState → StoredMessage → Bool
lost_in_flight live s m =
    is_sending m.status
    && not (not live && not s.runtime_started && is_message s.initial_message_id m)

unfoldable pub recover : Bool → MessageState → MessageState
unfolding save recover_message
recover live s =
    let gone = not live && is_some s.run_id in
    save (record s {
      messages = map (recover_message live s) s.messages;
      paused = s.paused || any (lost_in_flight live s) s.messages || gone;
      run_id = if gone then none else s.run_id;
      compaction =
          if live
          then s.compaction
          else end_compaction failed
              (some
                "Context compaction could not be confirmed after restarting. You can try again.")
              s.compaction;
    })

unfoldable pub pause : MessageState → MessageState
unfolding save
pause s = save (record s { paused = true })

abbrev pub lose_sending : StoredMessage → StoredMessage
lose_sending m =
    if is_sending m.status
    then record m { status = unknown; error = some "The run ended before delivery was confirmed." }
    else m

-- `finish` up to the call of `pump` at its end.
unfoldable pub finish_run : Bool → Option String → MessageState → MessageState
unfolding save
finish_run run_failed error s = save (record s {
  run_id = none;
  compaction =
      if run_failed
      then end_compaction failed
          (some (or_else error "Context compaction did not finish. Try again.")) s.compaction
      else complete_compaction s.compaction;
  paused = s.paused || run_failed || any (λ m. is_sending m.status) s.messages;
  messages = map lose_sending s.messages;
})

-- A rewrite of the message `id` if it is there and passes the test; else nothing is written.
abbrev pub write_if :
    (StoredMessage → Bool) → String → (MessageState → MessageState) → MessageState → MessageState
write_if p id f s = elim (find (by_id id) s.messages) [ none ↦ s | some m ↦ if p m then f s else s ]

unfoldable pub confirm_delivery : String → MessageState → MessageState
unfolding save
confirm_delivery id s =
    write_if (λ m. is_unconfirmed m.status) id
      (λ t. save (record t {
        messages =
            modify (by_id id) (λ m. record m { status = delivered; error = none }) t.messages;
      }))
      s

abbrev pub undelivered_status : Undelivered → Status
undelivered_status Undelivered.rejected = Status.rejected
undelivered_status Undelivered.unknown = Status.unknown

abbrev pub shared_error : Undelivered → String
shared_error Undelivered.rejected = "The shared session rejected this message."
shared_error Undelivered.unknown =
    "Delivery could not be confirmed. Check the conversation before sending again."

unfoldable pub delivery_failed : Bool → String → Undelivered → MessageState → MessageState
unfolding save
delivery_failed closed id u s =
    if closed
    then s
    else write_if (λ m. not (is_delivered m.status)) id
        (λ t. save (record t {
          messages =
              modify (by_id id)
                (λ m. record m { status = undelivered_status u; error = some (shared_error u) })
                t.messages;
          paused = true;
        }))
        s

abbrev pub settle_message : Settlement → StoredMessage → StoredMessage
settle_message accepted m = record m { status = delivered }
settle_message (refused Undelivered.rejected) m = record m {
  status = Status.rejected;
  error = some "The active run could not accept this message.";
}
settle_message (refused Undelivered.unknown) m = record m {
  status = Status.unknown;
  error = some "Delivery could not be confirmed. Check the conversation before sending again.";
}
settle_message thrown m = record m {
  status = Status.unknown;
  error = some "Delivery could not be confirmed.";
}

abbrev pub settle_pauses : Settlement → Bool
settle_pauses accepted = false
settle_pauses _ = true

-- The callbacks of `sendNow`, which run when the promise of `steer` settles.
unfoldable pub steer_settled : Bool → String → Settlement → MessageState → MessageState
unfolding save
steer_settled closed id r s =
    if closed
    then s
    else write_if (λ m. not (is_delivered m.status)) id
        (λ t. save (record t {
          messages = modify (by_id id) (settle_message r) t.messages;
          paused = t.paused || settle_pauses r;
        }))
        s
