-- ===== src/Audit/Store/Built.antt =====
-- The entry that is built for a request that its constructor accepts.
use reclaim_rail.Base.{
  ℕ, leb, ◌≡◌, refl, ◌∙◌, ok, String, Option, true, false, arith, strip, casefold, is_empty,
  Result-cases, inl, inr, lstrip, rstrip, is_space,
}
use reclaim_rail.Base.TextLaws.{strip_idem}
use reclaim_rail.Audit.Values.Canonical.{canonicalize_idem}
use reclaim_rail.Audit.Chain.{
  Platform, ChainEntry, Material, make_chain_entry, canonicalize_material, compute_audit_hash,
  build_audit_entry, normalize_required_hash, normalize_optional_hash, supported_hash_algorithm,
}
use reclaim_rail.Audit.Chain.Evidence.{IsDigest}
use reclaim_rail.Audit.Store.Reload.{made_fields, made_again, made_material}
use reclaim_rail.Audit.Store.{
  AppendRequest, AuditActor, system, agent, policy, worker, operator, razorpay, actor_value,
  next_number, chained_hash, make_append_request, next_entry,
}

module _ (platform : Platform) where
  -- what an appended entry is
  pub record Built (id : ℕ) (r : AppendRequest) (previous : Option ChainEntry) (h : Option String)
      (e : ChainEntry) : Type 0 where
    pub made : make_chain_entry e ≡ ok e
    pub of_request : e.recovery_case_id ≡ id
    pub numbered : e.sequence_number ≡ next_number previous
    pub hashed_by : e.hash_algorithm ≡ supported_hash_algorithm
    pub linked : e.previous_event_hash ≡ h
    pub own_hash : compute_audit_hash platform e ≡ ok e.event_hash

  sha256_normal : casefold (strip supported_hash_algorithm) ≡ supported_hash_algorithm
  unfolding casefold strip lstrip rstrip is_space
  sha256_normal = refl

  actor_visible : (a : AuditActor) → is_empty (casefold (strip (actor_value a))) ≡ false
  unfolding casefold strip lstrip rstrip is_space
  actor_visible system = refl
  actor_visible agent = refl
  actor_visible policy = refl
  actor_visible worker = refl
  actor_visible operator = refl
  actor_visible razorpay = refl

  number_positive : (previous : Option ChainEntry) → leb 1 (next_number previous) ≡ true
  number_positive previous = ground arith

  -- the hash and its algorithm are no part of the material
  unhashed :
      (e : ChainEntry) (d : String)
      → canonicalize_material platform
          (record e { event_hash = d; hash_algorithm = supported_hash_algorithm })
        ≡ canonicalize_material platform e
  unfolding canonicalize_material
  unhashed e d = refl

  module _ (digests : IsDigest platform) (id : ℕ) (raw r : AppendRequest)
      (requested : make_append_request platform raw ≡ ok r) where
    -- the material of the new entry
    request_material :
        (previous : Option ChainEntry) (h : Option String)
        → normalize_optional_hash (chained_hash previous) ≡ ok h
        → (m : Material) × (canonicalize_material platform (next_entry platform id r previous)
            ≡ ok m)
    unfolding make_append_request canonicalize_material
    request_material previous h p =
        elim (Result-cases (canonicalize_material platform (next_entry platform id r previous))) [
          | inr mq ↦ mq
          | inl (x, q) ↦ absurd (
              ground (
                arith,
                strip_idem raw.event_type,
                actor_visible r.actor_type,
                number_positive previous,
                canonicalize_idem platform.uuid_text platform.iso_text raw.event_data r.event_data,
              ))
        ]

    request_accepted :
        (previous : Option ChainEntry) (h : Option String) (d : String)
        → normalize_optional_hash (chained_hash previous) ≡ ok h
        → normalize_required_hash d ≡ ok d
        → (e : ChainEntry) × (make_chain_entry (record (next_entry platform id r previous) {
          event_hash = d;
          hash_algorithm = supported_hash_algorithm;
        })
            ≡ ok e)
    unfolding make_append_request make_chain_entry
    request_accepted previous h d p q =
        elim (Result-cases (
          make_chain_entry (record (next_entry platform id r previous) {
            event_hash = d;
            hash_algorithm = supported_hash_algorithm;
          }))) [
            | inr eq ↦ eq
            | inl (x, w) ↦ absurd (
                ground (
                  arith,
                  strip_idem raw.event_type,
                  actor_visible r.actor_type,
                  number_positive previous,
                ))
          ]

    pub built :
        (previous : Option ChainEntry) (h : Option String)
        → normalize_optional_hash (chained_hash previous) ≡ ok h
        → (e : ChainEntry) × (build_audit_entry platform (next_entry platform id r previous) ≡ ok e)
          × Built id r previous h e
    unfolding build_audit_entry compute_audit_hash
    built previous h p =
        let draft = next_entry platform id r previous in
        let (m, mq) = request_material previous h p in
        let d = platform.sha256_hexdigest m in
        let signed : ChainEntry = record draft {
          event_hash = d;
          hash_algorithm = supported_hash_algorithm;
        } in
        let (e, eq) = request_accepted previous h d p (digests m) in
        let f = made_fields signed e eq in
        let material : canonicalize_material platform e ≡ ok m =
          made_material signed e eq platform ∙ unhashed draft d ∙ mq in
        (
          e,
          rw mq eq,
          record {
            made = made_again signed e eq;
            of_request = f.of_case;
            numbered = f.number;
            hashed_by = f.algorithm ∙ sha256_normal;
            linked = ground (arith, f.previous);
            own_hash = rw material (ground (arith, f.own, digests m));
          },
        )
