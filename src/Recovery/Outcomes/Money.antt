-- ===== src/Recovery/Outcomes/Money.antt =====
-- The amounts of every proof that its constructor accepts.
use reclaim_rail.Base.{pos, ◌≤ℤ◌, ◌≡◌, ◌⊎◌, inl, inr, eqb_ℤ, true, ok, arith, -ℤ_parts}
use reclaim_rail.Recovery.Outcomes.{
  OutcomeProof, OutcomeStatus, recovered, reversed, duplicate_collection_prevented, has_zero_impact,
  make_outcome_proof, check_amounts, check_status, net_recovered_minor, has_recovered_revenue,
}

checked_status : (raw p : OutcomeProof) → make_outcome_proof raw ≡ ok p → check_status p ≡ ok tt
unfolding make_outcome_proof
checked_status raw p h = ground arith

zero_impact_amounts :
    (p : OutcomeProof)
    → check_status p ≡ ok tt
    → has_zero_impact p.status ≡ true
    → (eqb_ℤ p.gross_recovered_minor (pos 0) ≡ true) × (eqb_ℤ p.reversed_minor (pos 0) ≡ true)
unfolding check_status
zero_impact_amounts p h z = ground arith

impact_cases :
    (s : OutcomeStatus)
    → (has_zero_impact s ≡ true)
      ⊎ (s ≡ recovered)
      ⊎ (s ≡ reversed)
      ⊎ (s ≡ duplicate_collection_prevented)
impact_cases s = ground arith

module _ (raw p : OutcomeProof) (made : make_outcome_proof raw ≡ ok p) where
  -- In every proof that its constructor accepts, what is reversed lies within what was
  -- recovered, that and what was protected lie within the payment, and the net amount lies
  -- between nothing and the payment.
  pub proof_amounts :
      (pos 0 ≤ℤ p.reversed_minor)
      × (p.reversed_minor ≤ℤ p.gross_recovered_minor)
      × (p.gross_recovered_minor ≤ℤ p.original_amount_minor)
      × (pos 0 ≤ℤ p.duplicate_collection_prevented_minor)
      × (p.duplicate_collection_prevented_minor ≤ℤ p.original_amount_minor)
      × (pos 0 ≤ℤ net_recovered_minor p)
      × (net_recovered_minor p ≤ℤ p.original_amount_minor)
  unfolding make_outcome_proof check_amounts net_recovered_minor
  proof_amounts = ground (arith, -ℤ_parts p.gross_recovered_minor p.reversed_minor)

  -- A proof that its constructor accepts counts revenue for a status of recovery, reversal or
  -- prevention only; never for a pending, expired or cancelled link or an unresolved case.
  pub proof_revenue :
      has_recovered_revenue p ≡ true
      → (p.status ≡ recovered) ⊎ (p.status ≡ reversed) ⊎ (p.status ≡ duplicate_collection_prevented)
  unfolding has_recovered_revenue
  proof_revenue h = elim (impact_cases p.status) [
    | inl z ↦
        (let (g, r) = zero_impact_amounts p (checked_status raw p made) z in
          absurd (ground (arith, -ℤ_parts p.gross_recovered_minor p.reversed_minor)))
    | inr s ↦ s
  ]
