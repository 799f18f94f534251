-- ===== src/Recovery/Outcomes/Reconciled.antt =====
-- What the classifier makes of an input that its constructor accepted.
use reclaim_rail.Base.{
  pos, ◌-ℤ◌, ◌≤ℤ◌, ◌<ℤ◌, ◌≡◌, ◌↔◌, ◌⊎◌, true, false, none, some, List, nonempty, map_ok, ok, arith,
  String, eq_of_parts, sym, subst,
}
use reclaim_rail.Recovery.Models.{required_text, currency_code, stripped}
use reclaim_rail.Recovery.Normal.{
  required_text_again, currency_code_again, stripped_again, evidence_ids_again,
}
use reclaim_rail.Recovery.Outcomes.{
  OutcomeProof, make_outcome_proof, evidence_id, has_repeats, check_amounts, check_status,
  has_recovered_revenue,
}
use reclaim_rail.Recovery.Outcomes.Classifier.{
  ReconciliationInput, make_reconciliation_input, check_link_amounts, classify,
  reconcile_recovery_outcome, LinkState, paid, cancelled, has_zero_amount, is_paid, is_reversed,
  is_cancelled,
}
use reclaim_rail.Recovery.Outcomes.Classifier as Classifier

-- what the constructor of the input leaves behind
pub record IsAccepted (v : ReconciliationInput) : Type 0 where
  pub payment_text : (m : String) → required_text v.provider_payment_id m ≡ ok v.provider_payment_id
  pub link_text : stripped (some v.payment_link_id) ≡ some v.payment_link_id
  pub amount_positive : pos 1 ≤ℤ v.original_amount_minor
  pub currency_text : currency_code v.currency ≡ ok v.currency
  pub observed_aware : v.observed_at.tz_aware ≡ true
  pub ids_text : map_ok evidence_id v.evidence_event_ids ≡ ok v.evidence_event_ids
  pub ids_given : nonempty v.evidence_event_ids ≡ true
  pub ids_distinct : has_repeats v.evidence_event_ids ≡ false
  pub amounts : check_link_amounts v ≡ ok tt

check_amounts_ok :
    (p : OutcomeProof)
    → pos 0 ≤ℤ p.reversed_minor
    → p.reversed_minor ≤ℤ p.gross_recovered_minor
    → p.gross_recovered_minor ≤ℤ p.original_amount_minor
    → pos 0 ≤ℤ p.duplicate_collection_prevented_minor
    → p.duplicate_collection_prevented_minor ≤ℤ p.original_amount_minor
    → check_amounts p ≡ ok tt
unfolding check_amounts
check_amounts_ok p a b c d e = ground arith

-- a proof whose texts are normal and whose amounts and status fit is returned as it is
make_normal :
    (p : OutcomeProof)
    → required_text p.provider_payment_id "Provider payment ID cannot be empty"
      ≡ ok p.provider_payment_id
    → pos 1 ≤ℤ p.original_amount_minor
    → currency_code p.currency ≡ ok p.currency
    → p.occurred_at.tz_aware ≡ true
    → stripped p.payment_link_id ≡ p.payment_link_id
    → stripped p.provider_outcome_id ≡ p.provider_outcome_id
    → map_ok evidence_id p.evidence_event_ids ≡ ok p.evidence_event_ids
    → has_repeats p.evidence_event_ids ≡ false
    → check_amounts p ≡ ok tt
    → check_status p ≡ ok tt
    → make_outcome_proof p ≡ ok p
unfolding make_outcome_proof
make_normal p a b c d e f g h i j = ground arith

-- the amounts of an accepted input
record LinkAmounts (v : ReconciliationInput) : Type 0 where
  reversed_nonneg : pos 0 ≤ℤ v.payment_link_reversed_minor
  reversed_paid : v.payment_link_reversed_minor ≤ℤ v.payment_link_paid_amount_minor
  paid_original : v.payment_link_paid_amount_minor ≤ℤ v.original_amount_minor
  unpaid_zero :
      has_zero_amount v.payment_link_state ≡ true
      → (v.payment_link_paid_amount_minor ≡ pos 0) × (v.payment_link_reversed_minor ≡ pos 0)
  paid_positive : is_paid v.payment_link_state ≡ true → pos 1 ≤ℤ v.payment_link_paid_amount_minor
  reversed_positive :
      is_reversed v.payment_link_state ≡ true
      → (pos 1 ≤ℤ v.payment_link_paid_amount_minor) × (pos 1 ≤ℤ v.payment_link_reversed_minor)

link_amounts : (v : ReconciliationInput) → check_link_amounts v ≡ ok tt → LinkAmounts v
unfolding check_link_amounts
link_amounts v h = record {
  reversed_nonneg = ground arith;
  reversed_paid = ground arith;
  paid_original = ground arith;
  unpaid_zero = λ z. (
    eq_of_parts v.payment_link_paid_amount_minor (pos 0) (ground arith),
    eq_of_parts v.payment_link_reversed_minor (pos 0) (ground arith),
  );
  paid_positive = λ z. ground arith;
  reversed_positive = λ z. (ground arith, ground arith);
}

make_input_normal :
    (raw v : ReconciliationInput)
    → make_reconciliation_input raw ≡ ok v
    → (pid : String) × (lid : String) × (code : String) × (ids : List String) × (required_text
          raw.provider_payment_id "Provider payment ID cannot be empty"
        ≡ ok pid)
      × (required_text raw.payment_link_id "Payment Link ID cannot be empty" ≡ ok lid)
      × (currency_code raw.currency ≡ ok code)
      × (map_ok evidence_id raw.evidence_event_ids ≡ ok ids)
      × (v ≡ record raw {
        provider_payment_id = pid;
        payment_link_id = lid;
        currency = code;
        evidence_event_ids = ids;
      })
      × (pos 1 ≤ℤ raw.original_amount_minor)
      × (raw.observed_at.tz_aware ≡ true)
      × (nonempty ids ≡ true)
      × (has_repeats ids ≡ false)
      × (check_link_amounts raw ≡ ok tt)
unfolding make_reconciliation_input
make_input_normal raw v h = (
  v.provider_payment_id,
  v.payment_link_id,
  v.currency,
  v.evidence_event_ids,
  ground arith,
  ground arith,
  ground arith,
  ground arith,
  ground arith,
  ground arith,
  ground arith,
  ground arith,
  ground arith,
  ground arith,
)

make_input-IsAccepted :
    (raw v : ReconciliationInput) → make_reconciliation_input raw ≡ ok v → IsAccepted v
unfolding check_link_amounts
make_input-IsAccepted raw v h =
    let (pid, lid, code, ids, p, l, c, i, e, amount, aware, given, distinct, amounts) =
      make_input_normal raw v h in
    subst IsAccepted (sym e) (record {
      payment_text = λ m.
          required_text_again raw.provider_payment_id "Provider payment ID cannot be empty" m p;
      link_text = stripped_again raw.payment_link_id "Payment Link ID cannot be empty" l;
      amount_positive = amount;
      currency_text = currency_code_again raw.currency c;
      observed_aware = aware;
      ids_text = evidence_ids_again raw.evidence_event_ids ids i;
      ids_given = given;
      ids_distinct = distinct;
      amounts = amounts;
    })

module _ (v : ReconciliationInput) (a : IsAccepted v) where
  check_amounts-classify : check_amounts (classify v) ≡ ok tt
  unfolding classify
  check_amounts-classify =
      let l = link_amounts v a.amounts in
      check_amounts_ok (classify v) (ground (arith, l.reversed_nonneg))
        (ground (arith, l.reversed_paid, l.reversed_nonneg))
        (ground (arith, l.paid_original, a.amount_positive)) (ground (arith, a.amount_positive))
        (ground (arith, a.amount_positive))

  check_status-classify : check_status (classify v) ≡ ok tt
  unfolding check_status classify
  check_status-classify =
      let l = link_amounts v a.amounts in
      ground (arith, a.ids_given, a.amount_positive, l.paid_positive, l.reversed_positive)

  classify_fields :
      let p = classify v in
      (p.provider_payment_id ≡ v.provider_payment_id)
      × (p.original_amount_minor ≡ v.original_amount_minor)
      × (p.currency ≡ v.currency)
      × (p.occurred_at ≡ v.observed_at)
      × (p.evidence_event_ids ≡ v.evidence_event_ids)
      × (p.payment_link_id ≡ some v.payment_link_id)
      × (p.provider_outcome_id ≡ none)
  unfolding classify
  classify_fields = ground arith

  classify_accepted : reconcile_recovery_outcome v ≡ ok (classify v)
  unfolding reconcile_recovery_outcome
  classify_accepted =
      let (e1, e2, e3, e4, e5, e6, e7) = classify_fields in
      make_normal (classify v) (rw e1 (a.payment_text "Provider payment ID cannot be empty"))
        (ground (arith, a.amount_positive)) (rw e3 a.currency_text)
        (ground (arith, a.observed_aware)) (rw e6 a.link_text) (rw e7) (rw e5 a.ids_text)
        (rw e5 a.ids_distinct) check_amounts-classify check_status-classify

  -- The revenue of the classification, for an accepted input.
  classify-revenue : (has_recovered_revenue (classify v) ≡ true) ↔ (
      (v.late_authorization_detected_at ≡ none)
      × ((v.payment_link_state ≡ paid)
          ⊎ (v.payment_link_state ≡ Classifier.reversed)
            × (v.payment_link_reversed_minor <ℤ v.payment_link_paid_amount_minor)))
  unfolding has_recovered_revenue classify ◌-ℤ◌
  classify-revenue =
      let l = link_amounts v a.amounts in ground (arith, l.paid_positive, l.unpaid_zero)

-- For every input that its constructor accepts, reconciliation returns the proof of the
-- classification: building that proof never raises, and changes none of its texts.
pub reconcile-total :
    (raw v : ReconciliationInput)
    → make_reconciliation_input raw ≡ ok v
    → reconcile_recovery_outcome v ≡ ok (classify v)
reconcile-total raw v h = classify_accepted v (make_input-IsAccepted raw v h)

-- The proof of an accepted input counts recovered revenue exactly when no late authorization was
-- detected and the payment link was paid, or was paid and reversed by less than what was paid.
pub reconcile-revenue :
    (raw v : ReconciliationInput) (p : OutcomeProof)
    → make_reconciliation_input raw ≡ ok v
    → reconcile_recovery_outcome v ≡ ok p
    → (has_recovered_revenue p ≡ true) ↔ (
        (v.late_authorization_detected_at ≡ none)
        × ((v.payment_link_state ≡ paid)
            ⊎ (v.payment_link_state ≡ Classifier.reversed)
              × (v.payment_link_reversed_minor <ℤ v.payment_link_paid_amount_minor)))
reconcile-revenue raw v p h r =
    let a = make_input-IsAccepted raw v h in
    let same : classify v ≡ p = ground (arith, classify_accepted v a) in
    subst
      (λ q. (has_recovered_revenue q ≡ true) ↔ (
        (v.late_authorization_detected_at ≡ none)
        × ((v.payment_link_state ≡ paid)
            ⊎ (v.payment_link_state ≡ Classifier.reversed)
              × (v.payment_link_reversed_minor <ℤ v.payment_link_paid_amount_minor))))
      same (classify-revenue v a)
