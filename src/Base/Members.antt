-- ===== src/Base/Members.antt =====
-- Tests over a list and its members.
use mathlib.Core.List.{List, [], ◌∷◌, Memᴰ}
use mathlib.Core.Path.{◌≡◌, refl}
use mathlib.Core.Bool.{Bool, true, false}
use mathlib.Core.Logic.{inl, inr}
use native.Mathlib.Omega.{arith}
use reclaim_rail.Base.Tests.{if◌then◌else◌, Bool-cases, Option-cases}
use reclaim_rail.Base.Lists.{any, filter, nonempty, filter_map}
use mathlib.Core.Option.{Option, some}

module _ {ℓ} {A : Type ℓ} where
  pub any-mem : (p : A → Bool) {a : A} {xs : List A} → Memᴰ a xs → p a ≡ true → any p xs ≡ true
  any-mem p (Memᴰ.head e) h = rw (← e) (ground arith)
  any-mem p (Memᴰ.tail m) h = ground (arith, any-mem p m h)

  -- the member that makes a test over the list true
  pub any_witness :
      (p : A → Bool) (xs : List A) → any p xs ≡ true → (a : A) × Memᴰ a xs × (p a ≡ true)
  any_witness p [] h = cc
  any_witness p (x ∷ xs) h = elim (Bool-cases (p x)) [
    | inl e ↦ (x, Memᴰ.head refl, e)
    | inr e ↦ (let w = any_witness p xs (ground arith) in (w.0, Memᴰ.tail w.1, w.2))
  ]

  pub mem-filter :
      (p : A → Bool) {a : A} {xs : List A} → Memᴰ a xs → p a ≡ true → Memᴰ a (filter p xs)
  mem-filter p (Memᴰ.head e) h = rw (← e, h) (Memᴰ.head refl)
  mem-filter p (Memᴰ.tail {x = x} m) h = elim (Bool-cases (p x)) [
    | inl e ↦ rw e (Memᴰ.tail (mem-filter p m h))
    | inr e ↦ rw e (mem-filter p m h)
  ]

  pub mem_of_mem-filter :
      (p : A → Bool) {a : A} (xs : List A) → Memᴰ a (filter p xs) → Memᴰ a xs × (p a ≡ true)
  mem_of_mem-filter p [] m = elim m [ ]
  mem_of_mem-filter p (x ∷ xs) m = split (p x) refl m (mem_of_mem-filter p xs)
    where
      split :
          {a : A} (b : Bool)
          → p x ≡ b
          → Memᴰ a (if b then x ∷ filter p xs else filter p xs)
          → (Memᴰ a (filter p xs) → Memᴰ a xs × (p a ≡ true))
          → Memᴰ a (x ∷ xs) × (p a ≡ true)
      split true e (Memᴰ.head q) ih = (Memᴰ.head q, rw q e)
      split true e (Memᴰ.tail m) ih = (Memᴰ.tail (ih m).0, (ih m).1)
      split false e m ih = (Memᴰ.tail (ih m).0, (ih m).1)

  pub nonempty-filter : (p : A → Bool) (xs : List A) → nonempty (filter p xs) ≡ any p xs
  nonempty-filter p [] = refl
  nonempty-filter p (x ∷ xs) = ground (arith, nonempty-filter p xs)

  pub nonempty-mem : {a : A} {xs : List A} → Memᴰ a xs → nonempty xs ≡ true
  nonempty-mem (Memᴰ.head e) = refl
  nonempty-mem (Memᴰ.tail m) = refl

pub nonempty-filter_map {ℓ κ} :
    {A : Type ℓ} {B : Type κ} (f : A → Option B) {a : A} (b : B) {xs : List A}
    → Memᴰ a xs
    → f a ≡ some b
    → nonempty (filter_map f xs) ≡ true
nonempty-filter_map f b (Memᴰ.head e) h = rw (← e, h)
nonempty-filter_map f b (Memᴰ.tail {x = x} m) h = elim (Option-cases (f x)) [
  | inl e ↦ rw e (nonempty-filter_map f b m h)
  | inr (y, e) ↦ rw e
]
