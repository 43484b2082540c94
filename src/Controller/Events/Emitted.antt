-- ===== src/Controller/Events/Emitted.antt =====
-- Which events the findings of a cycle give.
use sre_operator.Common.{
  ◌≡◌, ◌↔◌, refl, ap, not, List, [], ◌∷◌, ◌++◌, map, select, str, ◌==◌, Bool-cases, inl, inr,
}
use sre_operator.Api.Enums.{SeverityLevel, category_text}
use sre_operator.Api.Types.{CheckResult}
use sre_operator.Controller.Events.{EventType, event_type, event_of, emit_events}

event_type_iff :
    (s : SeverityLevel) → (event_type s ≡ EventType.warning) ↔ (s ≡ SeverityLevel.critical)
unfolding event_type
event_type_iff SeverityLevel.critical = (λ h. refl, λ h. refl)
event_type_iff SeverityLevel.warning = (λ h. cc, λ h. cc)
event_type_iff SeverityLevel.info = (λ h. cc, λ h. cc)
event_type_iff (SeverityLevel.other t) = (λ h. cc, λ h. cc)

emit_events-map :
    (fs : List CheckResult)
    → emit_events fs ≡ map event_of (select (λ f. not (f.status == str "Healthy")) fs)
unfolding emit_events
emit_events-map [] = refl
emit_events-map (f ∷ fs) = elim (Bool-cases (f.status == str "Healthy")) [
  | inl e ↦ rw e (emit_events-map fs)
  | inr e ↦ rw e (ap (λ l. event_of f ∷ l) (emit_events-map fs))
]

-- The events are one for each finding that is not "Healthy", in their order. An event is a warning
-- exactly when its finding is critical, and its reason is "SRE" with the category and the status.
pub emit_events-select :
    (fs : List CheckResult)
    → (emit_events fs ≡ map event_of (select (λ f. not (f.status == str "Healthy")) fs))
      × ((f : CheckResult)
          → (((event_of f).type ≡ EventType.warning) ↔ (f.severity ≡ SeverityLevel.critical))
            × ((event_of f).reason ≡ str "SRE" ++ category_text f.category ++ f.status))
unfolding event_of
emit_events-select fs = (emit_events-map fs, λ f. (event_type_iff f.severity, refl))
