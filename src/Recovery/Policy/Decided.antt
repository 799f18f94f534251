-- ===== src/Recovery/Policy/Decided.antt =====
-- The policy decides every proposal: its decision is never refused by its own constructor.
use Prim.Native.Char.{Char}
use Prim.Native.String as Str
use text.Mathlib.TextLemmas.{cons-append}
use reclaim_rail.Base.{
  ◌≡◌, refl, true, false, not, List, [], ◌∷◌, nonempty, nonempty-append, ok, String, Datetime,
  arith, strip, is_empty, is_space,
}
use reclaim_rail.Recovery.Models.{
  CaseSnapshot, ActionProposal, PolicyOutcome, allow, block, escalate, stop, Guardrail, is_allow,
}
use reclaim_rail.Recovery.Policy.{
  RecoveryPolicy, build_decision, verdict, block_guardrails, escalate_guardrails,
  evaluate_recovery_proposal, ordered_unique_guardrails, explanation_of,
}

strip-cons : (c : Char) (s : String) → is_space c ≡ false → is_empty (strip (Str.◌∷◌ c s)) ≡ false
unfolding strip
strip-cons c s h = ground arith

-- a text that begins with a visible character is not blank
strip-append :
    (c : Char) (s t : String)
    → is_space c ≡ false
    → is_empty (strip (Str.◌++◌ (Str.◌∷◌ c s) t)) ≡ false
strip-append c s t h = rw (cons-append c s t) (strip-cons c (Str.◌++◌ s t) h)

strip-explanation :
    (o : PolicyOutcome) (gs : List Guardrail) → is_empty (strip (explanation_of o gs)) ≡ false
unfolding is_space
strip-explanation allow gs = unfold strip in refl
strip-explanation block gs = strip-append "B" "locked" _ refl
strip-explanation escalate gs = strip-append "E" "scalated" _ refl
strip-explanation stop gs = strip-append "S" "topped" _ refl

pub nonempty-from_keys :
    (gs : List Guardrail) → nonempty (ordered_unique_guardrails gs) ≡ nonempty gs
nonempty-from_keys [] = refl
nonempty-from_keys (g ∷ gs) = refl

build_decision_ok :
    (o : PolicyOutcome) (gs : List Guardrail) (t : Datetime)
    → t.tz_aware ≡ true
    → nonempty gs ≡ not (is_allow o)
    → build_decision o gs t
      ≡ ok (record {
        outcome = o;
        guardrails = ordered_unique_guardrails gs;
        explanation = strip (explanation_of o (ordered_unique_guardrails gs));
        evaluated_at = t;
      })
unfolding build_decision
build_decision_ok o gs t aware h =
    ground (arith, strip-explanation o (ordered_unique_guardrails gs), nonempty-from_keys gs)

pub verdict_guardrails :
    (policy : RecoveryPolicy) (c : CaseSnapshot) (p : ActionProposal) (t : Datetime)
    → nonempty (verdict policy c p t).1 ≡ not (is_allow (verdict policy c p t).0)
unfolding verdict
verdict_guardrails policy c p t =
    ground (arith, nonempty-append (block_guardrails policy c p t) (escalate_guardrails policy p))

-- At every time that carries a zone the policy returns a decision: the outcome of its checks with
-- the guardrails that they raised, each once and in the order in which they were found.
pub evaluate-total :
    (policy : RecoveryPolicy) (c : CaseSnapshot) (p : ActionProposal) (t : Datetime)
    → t.tz_aware ≡ true
    → let (o, gs) = verdict policy c p t in
      evaluate_recovery_proposal policy c p t
      ≡ ok (record {
        outcome = o;
        guardrails = ordered_unique_guardrails gs;
        explanation = strip (explanation_of o (ordered_unique_guardrails gs));
        evaluated_at = t;
      })
unfolding evaluate_recovery_proposal
evaluate-total policy c p t aware = simp aware (
    build_decision_ok (verdict policy c p t).0 (verdict policy c p t).1 t aware
      (verdict_guardrails policy c p t))
