-- ===== src/Audit/Chain/Evidence.antt =====
-- What a verified chain is evidence of: its last hash fixes all that was hashed.
use mathlib.Core.List.{Memᴰ}
use reclaim_rail.Base.{
  ◌≡◌, subst, Option, some, List, [], ◌∷◌, String, ok, arith, Result-cases, inl, inr,
}
use reclaim_rail.Audit.Chain.{
  Platform, ChainEntry, Material, compute_audit_hash, canonicalize_material,
  normalize_required_hash,
}
use reclaim_rail.Audit.Chain.Linked.{Linked}

-- the hash of the last entry, or the one before them all
abbrev pub last_hash : Option String → List ChainEntry → Option String
last_hash previous [] = previous
last_hash previous (e ∷ es) = last_hash (some e.event_hash) es

module _ (platform : Platform) where
  -- no two entries of the two lists that hash different material have the same hash
  abbrev pub CollisionFree : List ChainEntry → List ChainEntry → Type 0
  CollisionFree es fs =
      (e f : ChainEntry)
      → Memᴰ e es
      → Memᴰ f fs
      → compute_audit_hash platform e ≡ compute_audit_hash platform f
      → canonicalize_material platform e ≡ canonicalize_material platform f

-- a SHA-256 digest in hexadecimal is 64 lower-case hexadecimal digits
abbrev pub IsDigest : Platform → Type 0
IsDigest platform =
    (m : Material)
    → normalize_required_hash (platform.sha256_hexdigest m) ≡ ok (platform.sha256_hexdigest m)

module _ (platform : Platform) (digests : IsDigest platform) where
  pub normal_of_hash :
      (e : ChainEntry) {h : String}
      → compute_audit_hash platform e ≡ ok h
      → normalize_required_hash h ≡ ok h
  unfolding compute_audit_hash
  normal_of_hash e {h} p = elim (Result-cases (canonicalize_material platform e)) [
    | inl (x, r) ↦ absurd (ground arith)
    | inr (m, r) ↦
        (let q : platform.sha256_hexdigest m ≡ h = ground arith in
          subst (λ k. normalize_required_hash k ≡ ok k) q (digests m))
  ]
