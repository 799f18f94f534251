-- ===== src/Base/TextOrder.antt =====
-- The order of Python's texts, by code points, and `sorted` of a set of texts.
use Prim.Native.Nat.{Ordering}
use Prim.Native.String.{String, compare}
use Prim.Native.String.compare
use mathlib.Core.Path.{◌≡◌, refl, ◌∙◌}
use mathlib.Core.List.{List, [], ◌∷◌, Permᴰ}
use native.Mathlib.Omega.{arith}
use reclaim_rail.Base.Lists.{nonempty}
use text.Mathlib.TextEquality.{path_by_compare}

abbrev flip : Ordering → Ordering
flip Ordering.lt = Ordering.gt
flip Ordering.eq = Ordering.eq
flip Ordering.gt = Ordering.lt

pub compare-flip : (s t : String) → compare t s ≡ flip (compare s t)
compare-flip String.[] String.[] = refl
compare-flip String.[] (String.◌∷◌ d t) = rw (compare.nil-cons d t, compare.cons-nil d t)
compare-flip (String.◌∷◌ c s) String.[] = rw (compare.nil-cons c s, compare.cons-nil c s)
compare-flip (String.◌∷◌ c s) (String.◌∷◌ d t) =
    rw (compare.cons-cons c d s t, compare.cons-cons d c t s) (ground (arith, compare-flip s t))

pub compare_trans :
    (s t u : String)
    → compare s t ≡ Ordering.lt
    → compare t u ≡ Ordering.lt
    → compare s u ≡ Ordering.lt
compare_trans String.[] t String.[] p q = ground (arith, compare-flip "" t)
compare_trans String.[] t (String.◌∷◌ e u) p q = compare.nil-cons e u
compare_trans (String.◌∷◌ c s) String.[] u p q = cc (compare.cons-nil c s)
compare_trans (String.◌∷◌ c s) (String.◌∷◌ d t) String.[] p q = cc (compare.cons-nil d t)
compare_trans (String.◌∷◌ c s) (String.◌∷◌ d t) (String.◌∷◌ e u) p q = ground (
  arith,
  compare.cons-cons c d s t,
  compare.cons-cons d e t u,
  compare.cons-cons c e s u,
  compare_trans s t u,
)

-- `sorted({*set, text})` of a sorted list of distinct texts
unfoldable pub insert_sorted : String → List String → List String
insert_sorted x [] = x ∷ []
insert_sorted x (y ∷ ys) =
    let rest = insert_sorted x ys in
    elim (compare x y) [ Ordering.lt ↦ x ∷ y ∷ ys | Ordering.eq ↦ y ∷ ys | Ordering.gt ↦ y ∷ rest ]

pub insert_sorted_comm :
    (x y : String) (l : List String)
    → insert_sorted x (insert_sorted y l) ≡ insert_sorted y (insert_sorted x l)
unfolding insert_sorted
insert_sorted_comm x y [] = ground (arith, compare-flip x y, path_by_compare x y)
insert_sorted_comm x y (z ∷ l) = ground (
  arith,
  compare-flip x y,
  compare-flip x z,
  compare-flip y z,
  path_by_compare x y,
  path_by_compare x z,
  path_by_compare y z,
  compare_trans x y z,
  compare_trans y x z,
  compare_trans x z y,
  compare_trans z x y,
  compare_trans y z x,
  compare_trans z y x,
  insert_sorted_comm x y l,
)

-- `sorted(set(texts))`
unfoldable pub sorted_set : List String → List String
unfolding insert_sorted
sorted_set [] = []
sorted_set (x ∷ xs) = insert_sorted x (sorted_set xs)

-- A sorted set does not know the order in which its members came.
pub sorted_set-permᴰ : {xs ys : List String} → Permᴰ xs ys → sorted_set xs ≡ sorted_set ys
unfolding sorted_set
sorted_set-permᴰ Permᴰ.nil = refl
sorted_set-permᴰ (Permᴰ.trans d₁ d₂) = sorted_set-permᴰ d₁ ∙ sorted_set-permᴰ d₂
sorted_set-permᴰ (Permᴰ.cons e d) = cc (sorted_set-permᴰ d)
sorted_set-permᴰ (Permᴰ.swap {a = a} {b = b} {l = l} e₁ e₂) =
    insert_sorted_comm a b (sorted_set l) ∙ cc

pub nonempty-sorted_set : (xs : List String) → nonempty (sorted_set xs) ≡ nonempty xs
unfolding sorted_set insert_sorted
nonempty-sorted_set [] = refl
nonempty-sorted_set (x ∷ xs) = ground (arith, nonempty-sorted_set xs)
