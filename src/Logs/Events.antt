-- ===== src/Logs/Events.antt =====
-- What an event leaves in the buffer of the program log (`FieldCollector` and `on_event` of
-- common/src/tracing_logger.rs).
use wftpd_linux.Base.{Option, none, some, List, [], ◌∷◌, Text, text, text_eq, if◌then◌else◌}
use wftpd_linux.Logs.LogBuffer.{LogBuffer, push}

-- What a `Visit` takes from the fields of an event.
pub record FieldCollector : Type 0 where
  pub message : Text
  pub client_ip : Option Text
  pub username : Option Text
  pub action : Option Text

-- `record_str`, and `record_debug` of the value as it is formatted.
unfoldable pub record_field : FieldCollector → Text → Text → FieldCollector
record_field c name value =
    if text_eq name (text "message")
    then record c { message = value }
    else if text_eq name (text "client_ip")
    then record c { client_ip = some value }
    else if text_eq name (text "username")
    then record c { username = some value }
    else if text_eq name (text "action")
    then record c { action = some value }
    else c

abbrev pub record_fields : List (Text × Text) → FieldCollector → FieldCollector
record_fields [] c = c
record_fields ((name, value) ∷ fields) c = record_fields fields (record_field c name value)

-- `on_event`, of the time, the level and the target of the event.
unfoldable pub on_event : LogBuffer → Text → Text → Text → List (Text × Text) → LogBuffer
on_event b timestamp level target fields =
    let c =
      record_fields fields
        (record { message = []; client_ip = none; username = none; action = none }) in
    push b (record {
      timestamp = timestamp;
      level = level;
      source = target;
      message = c.message;
      client_ip = c.client_ip;
      username = c.username;
      action = c.action;
    })
