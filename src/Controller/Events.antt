-- ===== src/Controller/Events.antt =====
-- `emitEvents` of internal/controller/srepolicy_controller.go. `Eventf` is given the message as its
-- format: its further arguments are none, and how a "%" in a message then reads is left open.
pub mod Emitted
use sre_operator.Common.{not, List, [], ◌∷◌, ◌++◌, Text, str, ◌==◌, if◌then◌else◌}
use sre_operator.Api.Enums.{SeverityLevel, severity_text, category_text}
use sre_operator.Api.Types.{CheckResult}

pub data EventType : Type 0 where
  normal warning : EventType

pub record Event : Type 0 where
  pub type : EventType
  pub reason : Text
  pub message_format : Text

event_type : SeverityLevel → EventType
event_type SeverityLevel.critical = EventType.warning
event_type _ = EventType.normal

suffix : Text → Text → Text
suffix label value = if not (value == []) then label ++ value else []

unfoldable pub event_message : CheckResult → Text
unfolding suffix
event_message f =
    (b'[' ∷ severity_text f.severity ++ str "] " ++ f.resource_ref ++ str ": " ++ f.message)
    ++ suffix (str " | Runbook: ") f.runbook_url
    ++ suffix (str " | TraceID: ") f.trace_id

unfoldable pub event_of : CheckResult → Event
unfolding event_type
event_of f = record {
  type = event_type f.severity;
  reason = str "SRE" ++ category_text f.category ++ f.status;
  message_format = event_message f;
}

unfoldable pub emit_events : List CheckResult → List Event
emit_events [] = []
emit_events (f ∷ findings) =
    let rest = emit_events findings in if f.status == str "Healthy" then rest else event_of f ∷ rest
