-- ===== src/Audit/Store/Reload.antt =====
-- An entry that its constructor made is made again as it is, and hashes the same material.
use reclaim_rail.Base.{
  ◌≡◌, subst, ok, String, Option, none, some, arith, strip, casefold, Result-cases, inl, inr,
}
use reclaim_rail.Base.TextLaws.{strip_idem, casefold-strip_idem}
use reclaim_rail.Audit.Chain.{
  Platform, ChainEntry, make_chain_entry, canonicalize_material, normalize_required_hash,
  normalize_optional_hash,
}

pub normalize_hash_again :
    (s : String) {h : String} → normalize_required_hash s ≡ ok h → normalize_required_hash h ≡ ok h
unfolding normalize_required_hash
normalize_hash_again s {h} p =
    let e : casefold (strip s) ≡ h = ground arith in
    let idem : casefold (strip h) ≡ h =
      subst (λ x. casefold (strip x) ≡ x) e (casefold-strip_idem s) in
    ground arith

pub normalize_optional_again :
    (o : Option String) {p : Option String}
    → normalize_optional_hash o ≡ ok p
    → normalize_optional_hash p ≡ ok p
normalize_optional_again none h = ground arith
normalize_optional_again (some s) {p} h = elim (Result-cases (normalize_required_hash s)) [
  | inl (x, r) ↦ absurd (ground arith)
  | inr (d, r) ↦ ground (arith, normalize_hash_again s r)
]

module _ (raw e : ChainEntry) (made : make_chain_entry raw ≡ ok e) where
  -- the fields that the constructor leaves
  pub record Made : Type 0 where
    pub event_type : e.event_type ≡ strip raw.event_type
    pub actor_type : e.actor_type ≡ casefold (strip raw.actor_type)
    pub previous : normalize_optional_hash raw.previous_event_hash ≡ ok e.previous_event_hash
    pub own : normalize_required_hash raw.event_hash ≡ ok e.event_hash
    pub algorithm : e.hash_algorithm ≡ casefold (strip raw.hash_algorithm)
    pub number : e.sequence_number ≡ raw.sequence_number
    pub of_case : e.recovery_case_id ≡ raw.recovery_case_id

  pub made_fields : Made
  unfolding make_chain_entry
  made_fields = record {
    event_type = ground arith;
    actor_type = ground arith;
    previous = ground arith;
    own = ground arith;
    algorithm = ground arith;
    number = ground arith;
    of_case = ground arith;
  }

  pub made_again : make_chain_entry e ≡ ok e
  unfolding make_chain_entry
  made_again =
      let m = made_fields in
      ground (
        arith,
        strip_idem raw.event_type,
        casefold-strip_idem raw.actor_type,
        casefold-strip_idem raw.hash_algorithm,
        normalize_optional_again raw.previous_event_hash m.previous,
        normalize_hash_again raw.event_hash m.own,
      )

  pub made_material :
      (platform : Platform) → canonicalize_material platform e ≡ canonicalize_material platform raw
  unfolding make_chain_entry canonicalize_material
  made_material platform =
      let m = made_fields in
      ground (
        arith,
        strip_idem raw.event_type,
        casefold-strip_idem raw.actor_type,
        normalize_optional_again raw.previous_event_hash m.previous,
      )
