-- ===== src/Audit/Chain/Linked.antt =====
-- What a chain that verifies is.
use reclaim_rail.Base.{
  ℕ, ◌+◌, ◌≡◌, refl, ◌↔◌, Option, none, some, List, [], ◌∷◌, String, ok, arith, true, eq_iff,
  length, Result-cases, inl, inr,
}
use reclaim_rail.Audit.Chain.{
  Platform, ChainEntry, Verification, all_valid, same_hash, compute_audit_hash, verify_from,
  verify_chain, supported_hash_algorithm,
}

pub same_hash_iff : (a b : Option String) → (same_hash a b ≡ true) ↔ (a ≡ b)
same_hash_iff none none = ground arith
same_hash_iff none (some b) = ground arith
same_hash_iff (some a) none = ground arith
same_hash_iff (some a) (some b) = ground (arith, eq_iff a b)

module _ (platform : Platform) where
  -- The entry is number `n` of the case, follows the hash, and carries the hash of its own material.
  pub record Follows (case_id : ℕ) (previous : Option String) (n : ℕ) (e : ChainEntry)
      : Type 0 where
    pub of_case : e.recovery_case_id ≡ case_id
    pub numbered : e.sequence_number ≡ n
    pub hashed_by : e.hash_algorithm ≡ supported_hash_algorithm
    pub linked : e.previous_event_hash ≡ previous
    pub own_hash : compute_audit_hash platform e ≡ ok e.event_hash

  -- The entries follow one another, from the number after `checked`.
  abbrev pub Linked : ℕ → Option String → ℕ → List ChainEntry → Type 0
  Linked case_id previous checked [] = Unit
  Linked case_id previous checked (e ∷ es) =
      Follows case_id previous (checked + 1) e × Linked case_id (some e.event_hash) (checked + 1) es

  module _ (case_id : ℕ) (previous : Option String) (checked : ℕ) (e : ChainEntry)
      (es : List ChainEntry) where
    Follows-passes :
        Follows case_id previous (checked + 1) e
        → verify_from platform case_id previous checked (e ∷ es)
          ≡ verify_from platform case_id (some e.event_hash) (checked + 1) es
    unfolding verify_from
    Follows-passes f = rw f.own_hash (
        ground (
          arith,
          f.of_case,
          f.numbered,
          f.hashed_by,
          f.linked,
          same_hash_iff e.previous_event_hash previous,
          eq_iff e.hash_algorithm supported_hash_algorithm,
          eq_iff e.event_hash e.event_hash,
        ))

    passes-Follows :
        (v : Verification)
        → verify_from platform case_id previous checked (e ∷ es) ≡ ok v
        → v.is_valid ≡ true
        → Follows case_id previous (checked + 1) e
          × (verify_from platform case_id (some e.event_hash) (checked + 1) es ≡ ok v)
    unfolding verify_from
    passes-Follows v h t = elim (Result-cases (compute_audit_hash platform e)) [
      | inl (x, r) ↦ absurd (ground arith)
      | inr (d, r) ↦ (
        record {
          of_case = ground arith;
          numbered = ground arith;
          hashed_by = ground (arith, eq_iff e.hash_algorithm supported_hash_algorithm);
          linked = ground (arith, same_hash_iff e.previous_event_hash previous);
          own_hash = ground (arith, eq_iff e.event_hash d);
        },
        ground arith,
      )
    ]

  verify_from-Linked :
      (case_id : ℕ) (previous : Option String) (checked : ℕ) (es : List ChainEntry)
      → Linked case_id previous checked es
      → verify_from platform case_id previous checked es ≡ ok (all_valid (checked + length es))
  verify_from-Linked case_id previous checked [] l = unfold verify_from in ground arith
  verify_from-Linked case_id previous checked (e ∷ es) (f, l) =
      rw (Follows-passes case_id previous checked e es f)
        (ground (arith, verify_from-Linked case_id (some e.event_hash) (checked + 1) es l))

  Linked-verify_from :
      (case_id : ℕ) (previous : Option String) (checked : ℕ) (es : List ChainEntry)
      (v : Verification)
      → verify_from platform case_id previous checked es ≡ ok v
      → v.is_valid ≡ true
      → Linked case_id previous checked es
  Linked-verify_from case_id previous checked [] v h t = tt
  Linked-verify_from case_id previous checked (e ∷ es) v h t =
      let (f, r) = passes-Follows case_id previous checked e es v h t in
      (f, Linked-verify_from case_id (some e.event_hash) (checked + 1) es v r t)

  -- the chain of a case
  abbrev pub IsChain : List ChainEntry → Type 0
  IsChain [] = Unit
  IsChain (e ∷ es) = Linked e.recovery_case_id none 0 (e ∷ es)

  pub verify_chain_total :
      (es : List ChainEntry) → IsChain es → verify_chain platform es ≡ ok (all_valid (length es))
  unfolding verify_chain
  verify_chain_total [] c = refl
  verify_chain_total (e ∷ es) c =
      ground (arith, verify_from-Linked e.recovery_case_id none 0 (e ∷ es) c)

  pub IsChain-valid :
      (es : List ChainEntry) (v : Verification)
      → verify_chain platform es ≡ ok v
      → v.is_valid ≡ true
      → IsChain es
  unfolding verify_chain
  IsChain-valid [] v h t = tt
  IsChain-valid (e ∷ es) v h t = Linked-verify_from e.recovery_case_id none 0 (e ∷ es) v h t

  -- Verification finds a chain valid exactly when it is the record of one case, numbered from 1
  -- without a gap, each entry hashed by SHA-256 and carrying its predecessor's hash and the hash of
  -- its own material; and of such a record it says that all its entries are valid and counts them.
  pub verify-IsChain :
      (es : List ChainEntry)
      → (((v : Verification) × (verify_chain platform es ≡ ok v) × (v.is_valid ≡ true))
          ↔ IsChain es)
        × (IsChain es ↔ (verify_chain platform es ≡ ok (all_valid (length es))))
  verify-IsChain es = (
    (
      λ (v, h, t). IsChain-valid es v h t,
      λ c. (all_valid (length es), verify_chain_total es c, refl),
    ),
    (verify_chain_total es, λ h. IsChain-valid es (all_valid (length es)) h refl),
  )
