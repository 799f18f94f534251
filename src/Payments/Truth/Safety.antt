-- ===== src/Payments/Truth/Safety.antt =====
-- What evidence may lead to which truth.
use mathlib.Core.List.{Memᴰ}
use reclaim_rail.Base.{
  ◌≡◌, ◌≢◌, refl, ◌↔◌, ◌⊎◌, inl, inr, Bool, true, false, List, [], ◌∷◌, ok, String, Datetime,
  filter, any, nonempty, filter_map, arith, Bool-cases, some,
}
use reclaim_rail.Base.TextOrder.{nonempty-sorted_set}
use reclaim_rail.Base.Members.{
  any-mem, any_witness, mem-filter, mem_of_mem-filter, nonempty-filter, nonempty-filter_map,
  nonempty-mem,
}
use reclaim_rail.Payments.Truth.{
  EvidenceFact, TruthDecision, resolve_usable, resolve_payment_truth, is_usable,
  says_payment_status, says_late_authorization, identity_mismatch, is_confirmed_status,
  is_failed_status, outcome_unknown, source_conflict, payment_failed, payment_confirmed,
}

resolve_usable-ne-unknown : (xs : List EvidenceFact) → (resolve_usable xs).state ≢ outcome_unknown
unfolding resolve_usable
resolve_usable-ne-unknown xs = ground arith

-- an item of the evidence that is verified, fresh at the time, and passes the test
abbrev pub Reported : (EvidenceFact → Bool) → List EvidenceFact → Datetime → Type 0
Reported test xs t = (f : EvidenceFact) × Memᴰ f xs × (is_usable t f ≡ true) × (test f ≡ true)

any_of_Reported :
    (test : EvidenceFact → Bool) (xs : List EvidenceFact) (t : Datetime)
    → Reported test xs t
    → any test (filter (is_usable t) xs) ≡ true
any_of_Reported test xs t (f, m, u, h) = any-mem test (mem-filter (is_usable t) m u) h

Reported-of_any :
    (test : EvidenceFact → Bool) (xs : List EvidenceFact) (t : Datetime)
    → any test (filter (is_usable t) xs) ≡ true
    → Reported test xs t
Reported-of_any test xs t h =
    let w = any_witness test (filter (is_usable t) xs) h in
    let m = mem_of_mem-filter (is_usable t) xs w.1 in (w.0, m.0, m.1, w.2)

not_any_of_not-Reported :
    (test : EvidenceFact → Bool) (xs : List EvidenceFact) (t : Datetime)
    → ¬ Reported test xs t
    → any test (filter (is_usable t) xs) ≡ false
not_any_of_not-Reported test xs t h = elim (Bool-cases (any test (filter (is_usable t) xs))) [
  | inl e ↦ absurd (h (Reported-of_any test xs t e))
  | inr e ↦ e
]

nonempty_of_any :
    (test : EvidenceFact → Bool) (xs : List EvidenceFact) → any test xs ≡ true → nonempty xs ≡ true
nonempty_of_any test [] h = cc
nonempty_of_any test (x ∷ xs) h = refl

module _ (xs : List EvidenceFact) (t : Datetime) (d : TruthDecision)
    (resolved : resolve_payment_truth xs t ≡ ok d) where
  -- When the resolution returns, the truth is unknown exactly when no item of the evidence is
  -- verified and fresh.
  pub resolve-unknown : (d.state ≡ outcome_unknown) ↔ (any (is_usable t) xs ≡ false)
  unfolding resolve_payment_truth
  resolve-unknown =
      ground (
        arith,
        nonempty-filter (is_usable t) xs,
        resolve_usable-ne-unknown (filter (is_usable t) xs),
      )

  -- When the resolution returns, a usable report of a completed payment, a usable report of a
  -- failed one and no usable report of a late authorization make a source conflict, whatever
  -- else is reported.
  pub resolve-contradiction :
      Reported (says_payment_status is_confirmed_status) xs t
      → Reported (says_payment_status is_failed_status) xs t
      → ¬ Reported says_late_authorization xs t
      → d.state ≡ source_conflict
  unfolding resolve_payment_truth resolve_usable
  resolve-contradiction c f l = ground (
    arith,
    any_of_Reported (says_payment_status is_confirmed_status) xs t c,
    any_of_Reported (says_payment_status is_failed_status) xs t f,
    nonempty_of_any (says_payment_status is_failed_status) (filter (is_usable t) xs),
    not_any_of_not-Reported says_late_authorization xs t l,
  )

  -- When the resolution returns, a usable item that refutes an identity of the payment makes a
  -- source conflict.
  pub resolve-identity :
      (f : EvidenceFact) (name : String)
      → Memᴰ f xs
      → is_usable t f ≡ true
      → identity_mismatch f ≡ some name
      → d.state ≡ source_conflict
  unfolding resolve_payment_truth resolve_usable
  resolve-identity f name m u e =
      let m' = mem-filter (is_usable t) m u in
      ground (
        arith,
        nonempty-filter_map identity_mismatch name m' e,
        nonempty-sorted_set (filter_map identity_mismatch (filter (is_usable t) xs)),
        nonempty-mem m',
      )

  -- When the resolution returns, the payment is resolved as failed only if a usable item reports
  -- the failure and none reports that it was captured, paid or refunded.
  pub resolve-failed :
      d.state ≡ payment_failed
      → Reported (says_payment_status is_failed_status) xs t
        × ¬ Reported (says_payment_status is_confirmed_status) xs t
  unfolding resolve_payment_truth resolve_usable
  resolve-failed h = (
    Reported-of_any (says_payment_status is_failed_status) xs t (ground arith),
    λ c. ground (arith, any_of_Reported (says_payment_status is_confirmed_status) xs t c),
  )

  -- When the resolution returns, the payment is resolved as confirmed only if a usable item
  -- reports it captured, paid or refunded, and either none reports a failure or one reports a
  -- late authorization.
  pub resolve-confirmed :
      d.state ≡ payment_confirmed
      → Reported (says_payment_status is_confirmed_status) xs t
        × ((¬ Reported (says_payment_status is_failed_status) xs t)
            ⊎ Reported says_late_authorization xs t)
  unfolding resolve_payment_truth resolve_usable
  resolve-confirmed h = (
    Reported-of_any (says_payment_status is_confirmed_status) xs t (ground arith),
    elim (Bool-cases (any says_late_authorization (filter (is_usable t) xs))) [
      | inl e ↦ inr (Reported-of_any says_late_authorization xs t e)
      | inr e ↦
          inl (λ f. ground (arith, any_of_Reported (says_payment_status is_failed_status) xs t f))
    ],
  )
