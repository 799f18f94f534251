-- ===== src/Recovery/Normal.antt =====
-- The values that a constructor normalises are accepted as they are by the next one.
use reclaim_rail.Base.{
  ◌≡◌, false, String, some, List, [], ◌∷◌, map_ok, map_ok-cons, ok, strip, upper, is_empty, arith,
  subst,
}
use reclaim_rail.Base.TextLaws.{strip_idem, upper-strip_idem}
use reclaim_rail.Recovery.Models.{required_text, currency_code, stripped}
use reclaim_rail.Recovery.Outcomes.{evidence_id}

pub required_text_ok :
    (s m : String) {r : String} → required_text s m ≡ ok r → (strip s ≡ r) × (is_empty r ≡ false)
required_text_ok s m h = ground arith

pub required_text_again :
    (s m m' : String) {r : String} → required_text s m ≡ ok r → required_text r m' ≡ ok r
required_text_again s m m' {r} h =
    let (e, f) = required_text_ok s m h in
    let idem : strip r ≡ r = subst (λ x. strip x ≡ x) e (strip_idem s) in ground arith

pub currency_code_again :
    (s : String) {r : String} → currency_code s ≡ ok r → currency_code r ≡ ok r
unfolding currency_code
currency_code_again s {r} h =
    let e : upper (strip s) ≡ r = ground arith in
    let idem : upper (strip r) ≡ r = subst (λ x. upper (strip x) ≡ x) e (upper-strip_idem s) in
    ground arith

pub stripped_again :
    (s m : String) {r : String} → required_text s m ≡ ok r → stripped (some r) ≡ some r
stripped_again s m {r} h =
    let (e, f) = required_text_ok s m h in
    let idem : strip r ≡ r = subst (λ x. strip x ≡ x) e (strip_idem s) in ground arith

pub evidence_ids_again :
    (ids rs : List String) → map_ok evidence_id ids ≡ ok rs → map_ok evidence_id rs ≡ ok rs
evidence_ids_again [] rs h = ground arith
evidence_ids_again (i ∷ ids) rs h =
    let (y, ys, p, q, e) = map_ok-cons evidence_id i ids rs h in
    rw e (
      rw (
        required_text_again i "Evidence event ID cannot be empty"
            "Evidence event ID cannot be empty" p,
        evidence_ids_again ids ys q,
      ))
