-- ===== src/Incidents/Active.antt =====
-- apps/api/app/services/recovery_incident_context.py: the strongest active incident that concerns a
-- case, with the columns of apps/api/app/db/models/incident.py that it reads.
use reclaim_rail.Base.{
  ℕ, ltb, String, Bool, true, false, not, ◌&&◌, ◌||◌, Option, none, some, List, [], ◌∷◌, filter,
  Datetime, not_after, str_eq, ◌==◌,
}
use reclaim_rail.Base.Rows.{sort}
use reclaim_rail.Incidents.{IncidentSeverity, low, medium, high, critical}

pub data IncidentStatus : Type 0 where
  opened investigating mitigating resolved dismissed : IncidentStatus

pub record RevenueIncident : Type 0 where
  pub id : ℕ
  pub scope : String
  pub dimension_value : String
  pub currency : String
  pub severity : IncidentSeverity
  pub status : IncidentStatus
  pub current_window_end : Datetime
  pub last_detected_at : Datetime

pub record IncidentContext : Type 0 where
  pub incident_id : ℕ
  pub severity : IncidentSeverity
  pub scope : String
  pub dimension_value : String

abbrev pub is_active : IncidentStatus → Bool
is_active opened = true
is_active investigating = true
is_active mitigating = true
is_active _ = false

abbrev pub severity_rank : IncidentSeverity → ℕ
severity_rank critical = 4
severity_rank high = 3
severity_rank medium = 2
severity_rank low = 1

abbrev pub is_dimension : Option String → String → Bool
is_dimension none value = false
is_dimension (some method) value = str_eq value method

abbrev pub is_source : Option ℕ → ℕ → Bool
is_source none id = false
is_source (some source) id = id == source

abbrev pub is_relevant : Option ℕ → String → Option String → Datetime → RevenueIncident → Bool
is_relevant source_incident_id currency payment_method now i =
    is_active i.status
    && str_eq i.currency currency
    && not_after now i.current_window_end
    && (is_source source_incident_id i.id
        || str_eq i.scope "global"
        || (str_eq i.scope "payment_method" && is_dimension payment_method i.dimension_value))

-- `order_by(desc(_severity_rank()), desc(last_detected_at))`
abbrev pub stronger : RevenueIncident → RevenueIncident → Bool
stronger a b =
    ltb (severity_rank b.severity) (severity_rank a.severity)
    || (not (ltb (severity_rank a.severity) (severity_rank b.severity))
        && not_after b.last_detected_at a.last_detected_at)

abbrev pub strongest : List RevenueIncident → Option IncidentContext
strongest [] = none
strongest (i ∷ _) = some (record {
  incident_id = i.id;
  severity = i.severity;
  scope = i.scope;
  dimension_value = i.dimension_value;
})

-- `load_active_recovery_incident_context`, with the time that `datetime.now` answers
unfoldable pub load_active_incident :
    List RevenueIncident → Datetime → Option ℕ → String → Option String → Option IncidentContext
load_active_incident incidents now source_incident_id currency payment_method =
    strongest (
      sort stronger (filter (is_relevant source_incident_id currency payment_method now) incidents))
