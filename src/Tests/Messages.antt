-- ===== src/Tests/Messages.antt =====
-- Queues of two messages, and the theorems on message-controller.ts applied to them.
use palmagent.Common.{
  String, ◌≡◌, ◌⊎◌, refl, inr, map, ◌++◌, Bool, true, false, none, some, [], ◌∷◌, any, arith, ok,
  Refuses,
}
use palmagent.Messages.Types.{
  queue, Status, queued, sending, MessageSettings, StoredMessage, SubmitMessage, delete, is_sending,
}
use palmagent.Messages.Transitions.{fresh_state, snapshot, save, recover}
use palmagent.Messages.Controller.{World, Host, start, mark_sending, pump}
use palmagent.Messages.Requests.{submit, action}
use palmagent.Messages.Flight.{IsSingle}
use palmagent.Messages.Flight.Reach.{here, next, submits, ticks, Reach-IsSingle}
use palmagent.Messages.Ordering.{Claims, pump_in_order}
use palmagent.Messages.Recovery.{Recovered, Pointwise, recover_no_resend, recover_pauses}
use palmagent.Messages.Leases.{lease_excludes}
use palmagent.Messages.Receipts.{submit_again_reads}

abbrev no_settings : MessageSettings
no_settings = record { model = none; effort = none; permission = none }

abbrev host : Host Bool
host = record {
  assert_writable = λ w. none;
  validate_submission = λ w req. none;
  can_start = λ ready. ready;
  settings = λ o. no_settings;
  start = λ m w. (none, record w { outside = false });
  steer = λ m o. o;
  save_attachments = λ images. ok none;
  load_attachments = λ a. a;
  digest = λ req. req.text;
}

abbrev message : String → Status → StoredMessage
message id status = record {
  id = id;
  version = 1;
  mode = queue;
  text = "fix the build";
  skills = none;
  images = none;
  attachments = none;
  settings = none;
  status = status;
  run_id = none;
  error = none;
  editing_until = none;
  fingerprint = "fix the build";
  edit_token = none;
}

abbrev request : SubmitMessage
request = record {
  client_message_id = "m1";
  mode = queue;
  text = "fix the build";
  skills = none;
  images = none;
  expected_run_id = none;
  settings = none;
}

abbrev idle_world : World Bool
idle_world = record { queue = fresh_state; outside = true }

abbrev submitted : World Bool
submitted = (submit host 5 request idle_world).1

submitted_status : map (λ m. m.status) submitted.queue.messages ≡ sending ∷ []
unfolding submit pump
submitted_status = refl

Reach-IsSingle_example : IsSingle (pump host 9 submitted).1.queue
Reach-IsSingle_example =
    Reach-IsSingle host (λ m w h. h)
      (next (next here (submits 5 request idle_world)) (ticks 9 submitted)) (omega arith)

abbrev waiting_world : World Bool
waiting_world = record {
  queue = record fresh_state { messages = message "m1" queued ∷ message "m2" queued ∷ [] };
  outside = true;
}

recover_no_resend_example :
    (any (λ m. is_sending m.status) (recover true submitted.queue).messages ≡ false)
    × Pointwise
        (Recovered true submitted.queue)
        submitted.queue.messages
        (recover true submitted.queue).messages
recover_no_resend_example = recover_no_resend true submitted.queue

recover_pauses_example : (recover true submitted.queue).paused ≡ true
unfolding submit pump
recover_pauses_example = recover_pauses true submitted.queue (inr refl) refl

abbrev edited : StoredMessage
edited = record (message "m1" queued) { edit_token = some "laptop"; editing_until = some 100 }

abbrev edited_world : World Bool
edited_world = record { queue = record fresh_state { messages = edited ∷ [] }; outside = true }

lease_excludes_example : Refuses (action host 50 "m1" (delete 1) edited_world) edited_world
lease_excludes_example = lease_excludes host 50 "m1" (delete 1) edited edited_world refl refl refl

submit_again_reads_example :
    submit host 70 request submitted ≡ (ok (snapshot submitted.queue), submitted)
unfolding submit pump
submit_again_reads_example =
    submit_again_reads host (λ m w id. refl) 5 70 host request idle_world
      {q = snapshot submitted.queue} {v = submitted} refl refl

pump_in_order_example :
    (pump host 5 waiting_world ≡ (ok tt, waiting_world))
    ⊎ ((m : StoredMessage) × (c : Claims host 5 waiting_world m) × (pump host 5 waiting_world
          ≡ start host (mark_sending host m) (record waiting_world {
            queue = save (record (waiting_world.queue) {
              messages = c.first.before ++ mark_sending host m ∷ c.first.after;
            });
          })))
pump_in_order_example = pump_in_order host 5 waiting_world
