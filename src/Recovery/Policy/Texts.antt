-- ===== src/Recovery/Policy/Texts.antt =====
-- The texts of policy checks (`RecoveryPolicyCheck.as_dict`), of domain/recovery/policy.py.
use Prim.Native.String as Str
use reclaim_rail.Base.{ℤ, String, Option, none, some, Datetime, show_ℤ}
use reclaim_rail.Payments.State.{value}
use reclaim_rail.Incidents.{severity_value}
use reclaim_rail.Recovery.Models.{status_value}
use reclaim_rail.Recovery.Policy.Checks.{
  CheckResult, passed, failed, not_applicable, Shown, text, status_shown, payment_shown,
  attempts_shown, maximum_shown, incident_shown, amounts_shown, limit_shown, currencies_shown,
  active_until_shown, PolicyCheck,
}
use reclaim_rail.Audit.Values as Audit
use reclaim_rail.Audit.Values.{Fields, field, end}

-- an f-string of three parts
abbrev joined : String → String → String → String → String
joined a b c d = Str.◌++◌ a (Str.◌++◌ b (Str.◌++◌ c d))

abbrev amount_text : Option ℤ → String
amount_text none = "None"
amount_text (some n) = show_ℤ n

abbrev currency_text : Option String → String
currency_text none = "None"
currency_text (some s) = s

-- the value that a check shows, with the platform's `isoformat`
abbrev shown_text : (Datetime → String) → Shown → String
shown_text isoformat (text s) = s
shown_text isoformat (status_shown s) = status_value s
shown_text isoformat (payment_shown s) = value s
shown_text isoformat (attempts_shown n limit) = joined (show_ℤ n) " of " (show_ℤ limit) ""
shown_text isoformat (maximum_shown n) = joined "Maximum " (show_ℤ n) " recovery attempts" ""
shown_text isoformat (incident_shown s) = severity_value s
shown_text isoformat (amounts_shown proposed original) =
    joined "Proposed " (amount_text proposed) "; original " (show_ℤ original)
shown_text isoformat (limit_shown proposed limit) =
    joined (amount_text proposed) " minor units; limit " (show_ℤ limit) ""
shown_text isoformat (currencies_shown proposed original) =
    joined "Proposed " (currency_text proposed) "; original " original
shown_text isoformat (active_until_shown t) = joined "Active until " (isoformat t) "" ""

abbrev result_text : CheckResult → String
result_text passed = "passed"
result_text failed = "failed"
result_text not_applicable = "not_applicable"

abbrev pub check_fields : String → String → String → String → String → Fields
check_fields code label actual_value rule result = field (some "code") (Audit.text code) (
    field (some "label") (Audit.text label) (
      field (some "actual_value") (Audit.text actual_value)
        (field (some "rule") (Audit.text rule) (field (some "result") (Audit.text result) end))))

-- `check.as_dict()`
unfoldable pub as_dict : (Datetime → String) → PolicyCheck → Fields
as_dict isoformat c =
    check_fields c.code c.label (shown_text isoformat c.actual_value) (shown_text isoformat c.rule)
      (result_text c.result)
