-- ===== src/Messages/Types.antt =====
-- The data of the message queue: packages/shared/src/messages.ts, packages/shared/src/compaction.ts
-- and apps/server/src/modules/tasks/domain/models.ts. Skills and media references, which the queue
-- passes on without reading them, are carried as their JSON text.
use palmagent.Common.{ℕ, String, Bool, true, false, ◌||◌, Option, List, is_some, or_option}

pub data Mode : Type 0 where
  send queue : Mode

pub data Status : Type 0 where
  queued sending delivered rejected unknown cancelled : Status

pub record MessageSettings : Type 0 where
  pub model : Option String
  pub effort : Option String
  pub permission : Option String

-- `{ ...base, ...patch }`
abbrev pub merge_settings : MessageSettings → MessageSettings → MessageSettings
merge_settings base patch = record {
  model = or_option patch.model base.model;
  effort = or_option patch.effort base.effort;
  permission = or_option patch.permission base.permission;
}

-- `Object.keys(settings).length`, as a test
abbrev pub has_settings : MessageSettings → Bool
has_settings s = is_some s.model || is_some s.effort || is_some s.permission

pub record StoredMessage : Type 0 where
  pub id : String
  pub version : ℕ
  pub mode : Mode
  pub text : String
  pub skills : Option (List String)
  pub images : Option (List String)
  pub attachments : Option (List String)
  pub settings : Option MessageSettings
  pub status : Status
  pub run_id : Option String
  pub error : Option String
  pub editing_until : Option ℕ
  pub fingerprint : String
  pub edit_token : Option String

pub data CompactionStatus : Type 0 where
  running completed failed : CompactionStatus

pub record ContextCompaction : Type 0 where
  pub request_id : String
  pub status : CompactionStatus
  pub error : Option String

pub record MessageState : Type 0 where
  pub revision : ℕ
  pub paused : Bool
  pub run_id : Option String
  pub compaction : Option ContextCompaction
  pub messages : List StoredMessage
  pub interactive : Bool
  pub initial_message_id : Option String
  pub runtime_started : Bool

pub record SubmitMessage : Type 0 where
  pub client_message_id : String
  pub mode : Mode
  pub text : String
  pub skills : Option (List String)
  pub images : Option (List String)
  pub expected_run_id : Option String
  pub settings : Option MessageSettings

pub data MessageAction : Type 0 where
  edit : (version : ℕ) (token : String) → MessageAction
  renew : (token : String) → MessageAction
  save :
      (token : String) (version : ℕ) (text : String) (skills images : Option (List String))
      → MessageAction
  release : (token : String) → MessageAction
  delete : (version : ℕ) → MessageAction
  send : (version : ℕ) (expected_run_id : Option String) → MessageAction

-- What clients see of a message: all but the fingerprint and the edit token.
pub record PendingMessage : Type 0 where
  pub id : String
  pub version : ℕ
  pub mode : Mode
  pub text : String
  pub skills : Option (List String)
  pub images : Option (List String)
  pub attachments : Option (List String)
  pub settings : Option MessageSettings
  pub status : Status
  pub run_id : Option String
  pub error : Option String
  pub editing_until : Option ℕ

pub record MessageQueue : Type 0 where
  pub compaction : Option ContextCompaction
  pub revision : ℕ
  pub paused : Bool
  pub run_id : Option String
  pub messages : List PendingMessage

abbrev pub is_sending : Status → Bool
is_sending sending = true
is_sending _ = false

abbrev pub is_queued : Status → Bool
is_queued queued = true
is_queued _ = false

abbrev pub is_delivered : Status → Bool
is_delivered delivered = true
is_delivered _ = false

-- `"sending" || "unknown"`
abbrev pub is_unconfirmed : Status → Bool
is_unconfirmed sending = true
is_unconfirmed unknown = true
is_unconfirmed _ = false

-- `"delivered" || "cancelled"`
abbrev pub is_settled : Status → Bool
is_settled delivered = true
is_settled cancelled = true
is_settled _ = false

abbrev pub is_blocking : Status → Bool
is_blocking sending = true
is_blocking unknown = true
is_blocking rejected = true
is_blocking _ = false

abbrev pub is_send : Mode → Bool
is_send send = true
is_send queue = false

abbrev pub is_running : CompactionStatus → Bool
is_running running = true
is_running _ = false

-- The outcomes of a delivery other than success.
pub data Undelivered : Type 0 where
  rejected unknown : Undelivered

-- How the promise of `steer` settles: its value, or a rejection of the promise.
pub data Settlement : Type 0 where
  accepted : Settlement
  refused : Undelivered → Settlement
  thrown : Settlement
