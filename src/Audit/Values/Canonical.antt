-- ===== src/Audit/Values/Canonical.antt =====
-- Canonical event data is its own canonical form.
use reclaim_rail.Base.{ℕ, ℤ, ◌≡◌, String, some, ok, ◌>>=◌, >>=-eq-ok, arith}
use reclaim_rail.Audit.Values.{
  Value, Fields, Items, null, text, flag, int, float, uuid, moment, enum, mapping, sequence, other,
  end, field, nil, cons, string_key, canonicalize, canonicalize_fields, canonicalize_items,
}

module _ (uuid_text : ℕ → String) (iso_text : ℤ → String) where
  mutual
    unfolding canonicalize canonicalize_fields canonicalize_items

    canonical_again :
        (v w : Value)
        → canonicalize uuid_text iso_text v ≡ ok w
        → canonicalize uuid_text iso_text w ≡ ok w
    canonical_again null w h = ground arith
    canonical_again (text s) w h = ground arith
    canonical_again (flag b) w h = ground arith
    canonical_again (int n) w h = ground arith
    canonical_again (float bits) w h = ground arith
    canonical_again (uuid n) w h = ground arith
    canonical_again (moment t) w h = ground arith
    canonical_again (enum v) w h = canonical_again v w h
    canonical_again (mapping fs) w h =
        let (gs, p, q) =
          >>=-eq-ok (canonicalize_fields uuid_text iso_text fs) (λ gs. ok (mapping gs)) h in
        ground (arith, canonical_fields_again fs gs p)
    canonical_again (sequence vs) w h =
        let (ws, p, q) =
          >>=-eq-ok (canonicalize_items uuid_text iso_text vs) (λ ws. ok (sequence ws)) h in
        ground (arith, canonical_items_again vs ws p)
    canonical_again (other name) w h = cc

    canonical_fields_again :
        (fs gs : Fields)
        → canonicalize_fields uuid_text iso_text fs ≡ ok gs
        → canonicalize_fields uuid_text iso_text gs ≡ ok gs
    canonical_fields_again end gs h = ground arith
    canonical_fields_again (field key v fs) gs h =
        let (k, p, q) =
          >>=-eq-ok (string_key key)
            (λ k. canonicalize uuid_text iso_text v >>= λ w.
              canonicalize_fields uuid_text iso_text fs >>= λ hs. ok (field (some k) w hs))
            h in
        let (w, p', q') =
          >>=-eq-ok (canonicalize uuid_text iso_text v)
            (λ w. canonicalize_fields uuid_text iso_text fs >>= λ hs. ok (field (some k) w hs)) q in
        let (hs, p'', q'') =
          >>=-eq-ok (canonicalize_fields uuid_text iso_text fs) (λ hs. ok (field (some k) w hs))
            q' in
        ground (arith, canonical_again v w p', canonical_fields_again fs hs p'')

    canonical_items_again :
        (vs ws : Items)
        → canonicalize_items uuid_text iso_text vs ≡ ok ws
        → canonicalize_items uuid_text iso_text ws ≡ ok ws
    canonical_items_again nil ws h = ground arith
    canonical_items_again (cons v vs) ws h =
        let (w, p, q) =
          >>=-eq-ok (canonicalize uuid_text iso_text v)
            (λ w. canonicalize_items uuid_text iso_text vs >>= λ ws. ok (cons w ws)) h in
        let (us, p', q') =
          >>=-eq-ok (canonicalize_items uuid_text iso_text vs) (λ ws. ok (cons w ws)) q in
        ground (arith, canonical_again v w p, canonical_items_again vs us p')

  -- Event data that normalisation accepts is left as it is by a second normalisation, whatever it
  -- nests.
  pub canonicalize_idem :
      (fs gs : Fields)
      → canonicalize_fields uuid_text iso_text fs ≡ ok gs
      → canonicalize_fields uuid_text iso_text gs ≡ ok gs
  canonicalize_idem fs gs h = canonical_fields_again fs gs h
