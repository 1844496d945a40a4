-- ===== src/Messages/Flight/Reach.antt =====
-- At most one message of a task is in flight, after any sequence of the operations of
-- message-controller.ts.
use palmagent.Common.{ℕ, String, ◌≡◌, Bool, true, Option, string_eq}
use palmagent.Messages.Types.{StoredMessage, SubmitMessage, MessageAction, Undelivered, Settlement}
use palmagent.Messages.Transitions.{
  begin_run, reject_before_start, starting_runtime, stop_waiting, recover, pause, confirm_delivery,
  delivery_failed, steer_settled,
}
use palmagent.Messages.Controller.{World, Host, pump}
use palmagent.Messages.Requests.{submit, action, resume, finish}
use palmagent.Messages.Flight.{
  IsSingle, awaits, begin_run-IsSingle, reject_before_start-IsSingle, starting_runtime-IsSingle,
  pause-IsSingle, stop_waiting-IsSingle, recover-IsSingle, confirm_delivery-IsSingle,
  delivery_failed-IsSingle, steer_settled-IsSingle,
}
use palmagent.Messages.Flight.Requests.{
  pump-IsSingle, submit-IsSingle, action-IsSingle, resume-IsSingle, finish-IsSingle,
}

-- Everything that writes the queue of a task. A late report of a delivery is taken only while the
-- message is unconfirmed.
pub data Step {O : Type 0} (host : Host O) : World O → World O → Type 0 where
  begins :
      (run : String) (initial compaction : Option String) (w : World O)
      → Step host w (record w { queue = begin_run run initial compaction w.queue })
  refuses_start :
      (e : String) (w : World O) → Step host w (record w { queue = reject_before_start e w.queue })
  starts_runtime : (w : World O) → Step host w (record w { queue = starting_runtime w.queue })
  stops_waiting : (w : World O) → Step host w (record w { queue = stop_waiting w.queue })
  recovers : (live : Bool) (w : World O) → Step host w (record w { queue = recover live w.queue })
  pauses : (w : World O) → Step host w (record w { queue = pause w.queue })
  resumes : (now : ℕ) (w : World O) → Step host w (resume host now w).1
  finishes :
      (now : ℕ) (run_failed drain : Bool) (e : Option String) (w : World O)
      → Step host w (finish host now run_failed drain e w).1
  confirms :
      (id : String) (w : World O) → Step host w (record w { queue = confirm_delivery id w.queue })
  fails :
      (closed : Bool) (id : String) (u : Undelivered) (w : World O)
      → awaits id w.queue ≡ true
      → Step host w (record w { queue = delivery_failed closed id u w.queue })
  settles :
      (closed : Bool) (id : String) (r : Settlement) (w : World O)
      → awaits id w.queue ≡ true
      → Step host w (record w { queue = steer_settled closed id r w.queue })
  submits : (now : ℕ) (req : SubmitMessage) (w : World O) → Step host w (submit host now req w).1
  acts :
      (now : ℕ) (id : String) (a : MessageAction) (w : World O)
      → Step host w (action host now id a w).1
  ticks : (now : ℕ) (w : World O) → Step host w (pump host now w).1
  -- The task service changes its own state.
  moves : (o : O) (w : World O) → Step host w (record w { outside = o })

pub data Reach {O : Type 0} (host : Host O) (w : World O) : World O → Type 0 where
  here : Reach host w w
  next : {v u : World O} → Reach host w v → Step host v u → Reach host w u

module _ {O : Type 0} (host : Host O)
    (keeps : (m : StoredMessage) (w : World O)
      → IsSingle w.queue
      → IsSingle (host.start m w).1.queue) where
  Step-IsSingle : {v u : World O} → Step host v u → IsSingle v.queue → IsSingle u.queue
  Step-IsSingle (begins run i c w) h = begin_run-IsSingle run i c w.queue h
  Step-IsSingle (refuses_start e w) h = reject_before_start-IsSingle e w.queue h
  Step-IsSingle (starts_runtime w) h = starting_runtime-IsSingle w.queue h
  Step-IsSingle (stops_waiting w) h = stop_waiting-IsSingle w.queue h
  Step-IsSingle (recovers live w) h = recover-IsSingle live w.queue h
  Step-IsSingle (pauses w) h = pause-IsSingle w.queue h
  Step-IsSingle (resumes now w) h = resume-IsSingle host keeps now w h
  Step-IsSingle (finishes now f drain e w) h = finish-IsSingle host keeps now f drain e w h
  Step-IsSingle (confirms id w) h = confirm_delivery-IsSingle id w.queue h
  Step-IsSingle (fails closed id u w a) h = delivery_failed-IsSingle closed id u w.queue a h
  Step-IsSingle (settles closed id r w a) h = steer_settled-IsSingle closed id r w.queue a h
  Step-IsSingle (submits now req w) h = submit-IsSingle host keeps now req w h
  Step-IsSingle (acts now id a w) h = action-IsSingle host keeps now id a w h
  Step-IsSingle (ticks now w) h = pump-IsSingle host keeps now w h
  Step-IsSingle (moves o w) h = h

  -- Whatever requests, callbacks, run ends and restarts follow one another, a task whose host's
  -- `start` keeps at most one unconfirmed message has at most one message that is sending or
  -- unknown, if that was so at the start. A late failure of a delivery, and the end of a steering,
  -- accepted or not, are taken only while their message is unconfirmed.
  pub Reach-IsSingle : {w v : World O} → Reach host w v → IsSingle w.queue → IsSingle v.queue
  Reach-IsSingle here h = h
  Reach-IsSingle (next r s) h = Step-IsSingle s (Reach-IsSingle r h)
