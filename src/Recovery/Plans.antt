-- ===== src/Recovery/Plans.antt =====
-- The data of apps/api/app/domain/recovery/planner.py: what a plan is made from, and plans.
use reclaim_rail.Base.{
  ℤ, pos, leb_ℤ, ltb_ℤ, String, Bool, true, false, not, ◌&&◌, Option, none, some, List, length,
  nonempty, filter_map, from_keys, Result, ok, value_error, ◌>>◌, raise_if, Datetime, before,
  require_timezone_aware, strip, casefold, is_empty, str_eq, if◌then◌else◌, leb,
}
use reclaim_rail.Recovery.Models.{
  CaseSnapshot, Channel, email, sms, whatsapp, ActionProposal, folded, text_or_none,
}

pub data PlanDecision : Type 0 where
  recover hold escalate stop : PlanDecision

pub record FailureEvidence : Type 0 where
  pub error_code : Option String
  pub error_source : Option String
  pub error_step : Option String
  pub error_reason : Option String
  pub failure_count : ℤ
  pub first_failed_at : Datetime
  pub last_failed_at : Datetime

-- `PaymentFailureEvidence.__post_init__`
unfoldable pub make_failure_evidence : FailureEvidence → Result FailureEvidence
make_failure_evidence f = do
  raise_if (ltb_ℤ f.failure_count (pos 1))
      (value_error "Failure evidence requires at least one failure")
  require_timezone_aware f.first_failed_at (value_error "First failure must be timezone-aware")
  require_timezone_aware f.last_failed_at (value_error "Last failure must be timezone-aware")
  raise_if (before f.last_failed_at f.first_failed_at)
      (value_error "Last failure cannot be earlier than first failure")
  ok (record f {
    error_code = folded f.error_code;
    error_source = folded f.error_source;
    error_step = folded f.error_step;
    error_reason = folded f.error_reason;
  })

pub record PlanningContext : Type 0 where
  pub case : CaseSnapshot
  pub failure : FailureEvidence
  pub available_channels : List Channel
  pub alternate_payment_methods : List String
  pub planned_at : Datetime

abbrev pub same_channel : Channel → Channel → Bool
same_channel email email = true
same_channel sms sms = true
same_channel whatsapp whatsapp = true
same_channel _ _ = false

-- `method.strip().casefold() ... if method.strip()`
abbrev pub folded_method : String → Option String
folded_method m = if is_empty (strip m) then none else some (casefold (strip m))

-- `RecoveryPlanningContext.__post_init__`
unfoldable pub make_planning_context : PlanningContext → Result PlanningContext
make_planning_context x = do
  require_timezone_aware x.planned_at (value_error "Planning time must be timezone-aware")
  ok (record x {
    available_channels = from_keys same_channel x.available_channels;
    alternate_payment_methods =
        from_keys str_eq (filter_map folded_method x.alternate_payment_methods);
  })

pub record PlannerPolicy : Type 0 where
  pub maximum_recovery_attempts : ℤ
  pub automatic_amount_limit_minor : ℤ
  pub incident_recheck_delay : ℤ
  pub maximum_plan_actions : ℤ

-- `RecoveryPlannerPolicy.__post_init__`
unfoldable pub make_planner_policy : PlannerPolicy → Result PlannerPolicy
make_planner_policy p = do
  raise_if (ltb_ℤ p.maximum_recovery_attempts (pos 1))
      (value_error "Maximum recovery attempts must be positive")
  raise_if (ltb_ℤ p.automatic_amount_limit_minor (pos 1))
      (value_error "Automatic amount limit must be positive")
  raise_if (leb_ℤ p.incident_recheck_delay (pos 0))
      (value_error "Incident recheck delay must be positive")
  raise_if (not (leb_ℤ (pos 1) p.maximum_plan_actions && leb_ℤ p.maximum_plan_actions (pos 3)))
      (value_error "Maximum plan actions must be between one and three")
  ok p

-- three attempts, 50,000 rupees, fifteen minutes, three actions
abbrev pub default_planner_policy : PlannerPolicy
default_planner_policy = record {
  maximum_recovery_attempts = pos 3;
  automatic_amount_limit_minor = pos 5_000_000;
  incident_recheck_delay = pos 900_000_000;
  maximum_plan_actions = pos 3;
}

pub record RecoveryPlan : Type 0 where
  pub decision : PlanDecision
  pub reasoning_summary : String
  pub proposals : List ActionProposal
  pub evidence_codes : List String
  pub generated_at : Datetime
  pub planner_version : String

-- `code.strip() for code in codes if code.strip()`
abbrev pub visible_code : String → Option String
visible_code code = text_or_none (strip code)

-- `RecoveryPlan.__post_init__`
unfoldable pub make_recovery_plan : RecoveryPlan → Result RecoveryPlan
make_recovery_plan p = do
  raise_if (is_empty (strip p.reasoning_summary))
      (value_error "Recovery plan requires a reasoning summary")
  raise_if (is_empty (strip p.planner_version))
      (value_error "Recovery plan requires a planner version")
  raise_if (not (nonempty p.proposals)) (value_error "Recovery plan requires at least one proposal")
  raise_if (not (leb (length p.proposals) 3))
      (value_error "Recovery plan cannot contain more than three proposals")
  raise_if (not (nonempty p.evidence_codes)) (value_error "Recovery plan requires evidence codes")
  require_timezone_aware p.generated_at (value_error "Plan generation time must be timezone-aware")
  ok (record p {
    reasoning_summary = strip p.reasoning_summary;
    planner_version = strip p.planner_version;
    evidence_codes = from_keys str_eq (filter_map visible_code p.evidence_codes);
  })
