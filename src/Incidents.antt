-- ===== src/Incidents.antt =====
-- apps/api/app/domain/incidents: the severities of payment incidents.
pub mod Active
pub mod Severe
use reclaim_rail.Base.{String}

pub data IncidentSeverity : Type 0 where
  low medium high critical : IncidentSeverity

-- `IncidentSeverity.value`
abbrev pub severity_value : IncidentSeverity → String
severity_value low = "low"
severity_value medium = "medium"
severity_value high = "high"
severity_value critical = "critical"
