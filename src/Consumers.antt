-- ===== src/Consumers.antt =====
-- The stand-alone programs under services/ that read the events of the backend from Kafka: what they
-- read of an event. The identifiers of its payload are numbers, as the backend writes them.
pub mod Orchestrator
pub mod Indexer
pub mod Notifier
pub mod Funnel
pub mod Dispatch
pub mod Triggers
use hop_drop.Common.{str_eq, true, false, some, if◌then◌else◌, Bool, none, ℕ, Option, String}
use hop_drop.Json.{Json, Fields, flag, num, text, obj, end, field}
use hop_drop.Outbox.Relay.{KafkaMessage}

-- `payload.name`; a field that is not there is undefined.
unfoldable pub get_field : String → Fields → Option Json
get_field name end = none
get_field name (field key j fields) = if str_eq key name then some j else get_field name fields

abbrev pub fields_of : Option Json → Fields
fields_of (some (obj fields)) = fields
fields_of _ = end

-- `payload.outer?.inner`
abbrev pub get_inner : String → String → Fields → Option Json
get_inner outer inner fields = get_field inner (fields_of (get_field outer fields))

-- `payload.name === true`
abbrev pub is_true : Option Json → Bool
is_true (some (flag true)) = true
is_true _ = false

-- `payload.name === 'text'`
abbrev pub is_text : Option Json → String → Bool
is_text (some (text t)) u = str_eq t u
is_text _ u = false

-- `payload.name || envelope.aggregate_id`
abbrev pub id_or : Option Json → ℕ → ℕ
id_or (some (num k)) id = k
id_or _ id = id

-- What becomes of the value of a message: it is empty, it is no JSON, or it is an event.
pub data RawMessage : Type 0 where
  no_value : RawMessage
  unreadable : RawMessage
  readable : KafkaMessage → RawMessage
