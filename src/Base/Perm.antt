-- ===== src/Base/Perm.antt =====
-- What the order of a list does not change.
use mathlib.Core.List.{List, [], ◌∷◌, map, Perm, Permᴰ}
use mathlib.Core.Option.{Option, none, some}
use mathlib.Core.Logic.{∥∥₁_elim}
use mathlib.Core.Path.{◌≡◌, refl, ◌∙◌, ap}
use mathlib.Core.Bool.{Bool, true, false}
use native.Mathlib.Omega.{arith}
use reclaim_rail.Base.Tests.{if◌then◌else◌}
use reclaim_rail.Base.Lists.{any, filter, filter_map, push, nonempty}

module _ {ℓ κ} {A : Type ℓ} {S : Type κ} (S_set : IsSet S) (f : S → A → S) where
  -- `for a in as: s = f(s, a)`
  abbrev pub run : S → List A → S
  run s [] = s
  run s (a ∷ as') = run (f s a) as'

  module _ (commute : (s : S) (a b : A) → f (f s a) b ≡ f (f s b) a) where
    run-permᴰ : {as' bs : List A} → Permᴰ as' bs → (s : S) → run s as' ≡ run s bs
    run-permᴰ Permᴰ.nil s = refl
    run-permᴰ (Permᴰ.cons {l₁ = l₁} {l₂ = l₂} e d) s = rw e (run-permᴰ d _)
    run-permᴰ (Permᴰ.swap {a' = a'} {b' = b'} {l = l} e₁ e₂) s = rw (e₁, e₂, commute s b' a')
    run-permᴰ (Permᴰ.trans d₁ d₂) s = run-permᴰ d₁ s ∙ run-permᴰ d₂ s

    -- Steps that commute reach one state in every order of the list.
    pub run-perm : {as' bs : List A} → Perm as' bs → (s : S) → run s as' ≡ run s bs
    run-perm p s = ∥∥₁_elim p (S_set _ _) (λ d. run-permᴰ d s)

permᴰ_refl {ℓ} : {A : Type ℓ} (l : List A) → Permᴰ l l
permᴰ_refl [] = Permᴰ.nil
permᴰ_refl (x ∷ xs) = Permᴰ.cons refl (permᴰ_refl xs)

module _ {ℓ} {A : Type ℓ} where
  push-permᴰ : (o : Option A) {xs ys : List A} → Permᴰ xs ys → Permᴰ (push o xs) (push o ys)
  push-permᴰ none d = d
  push-permᴰ (some x) d = Permᴰ.cons refl d

  push-swap : (o p : Option A) (xs : List A) → Permᴰ (push o (push p xs)) (push p (push o xs))
  push-swap none p xs = permᴰ_refl (push p xs)
  push-swap (some x) none xs = permᴰ_refl (x ∷ xs)
  push-swap (some x) (some y) xs = Permᴰ.swap refl refl

module _ {ℓ} {A : Type ℓ} where
  pub any-permᴰ : (p : A → Bool) {xs ys : List A} → Permᴰ xs ys → any p xs ≡ any p ys
  any-permᴰ p Permᴰ.nil = refl
  any-permᴰ p (Permᴰ.cons e d) = rw (e, any-permᴰ p d)
  any-permᴰ p (Permᴰ.swap {a' = a'} {b' = b'} e₁ e₂) = rw (e₁, e₂) (ground arith)
  any-permᴰ p (Permᴰ.trans d₁ d₂) = any-permᴰ p d₁ ∙ any-permᴰ p d₂

  pub nonempty-permᴰ : {xs ys : List A} → Permᴰ xs ys → nonempty xs ≡ nonempty ys
  nonempty-permᴰ Permᴰ.nil = refl
  nonempty-permᴰ (Permᴰ.cons e d) = refl
  nonempty-permᴰ (Permᴰ.swap e₁ e₂) = refl
  nonempty-permᴰ (Permᴰ.trans d₁ d₂) = nonempty-permᴰ d₁ ∙ nonempty-permᴰ d₂

  keep-permᴰ :
      (b : Bool) {x y : A} {xs ys : List A}
      → x ≡ y
      → Permᴰ xs ys
      → Permᴰ (if b then x ∷ xs else xs) (if b then y ∷ ys else ys)
  keep-permᴰ true e d = Permᴰ.cons e d
  keep-permᴰ false e d = d

  keep-swap :
      (a b : Bool) (x y : A) (xs : List A)
      → Permᴰ
          (if a then x ∷ (if b then y ∷ xs else xs) else (if b then y ∷ xs else xs))
          (if b then y ∷ (if a then x ∷ xs else xs) else (if a then x ∷ xs else xs))
  keep-swap true true x y xs = Permᴰ.swap refl refl
  keep-swap true false x y xs = permᴰ_refl (x ∷ xs)
  keep-swap false true x y xs = permᴰ_refl (y ∷ xs)
  keep-swap false false x y xs = permᴰ_refl xs

  pub filter-permᴰ :
      (p : A → Bool) {xs ys : List A} → Permᴰ xs ys → Permᴰ (filter p xs) (filter p ys)
  filter-permᴰ p Permᴰ.nil = Permᴰ.nil
  filter-permᴰ p (Permᴰ.cons {b = b} e d) = rw e (keep-permᴰ (p b) refl (filter-permᴰ p d))
  filter-permᴰ p (Permᴰ.swap {a' = a'} {b' = b'} {l = l} e₁ e₂) =
      rw (e₁, e₂) (keep-swap (p b') (p a') b' a' (filter p l))
  filter-permᴰ p (Permᴰ.trans d₁ d₂) = Permᴰ.trans (filter-permᴰ p d₁) (filter-permᴰ p d₂)

  module _ {κ} {B : Type κ} where
    pub filter_map-permᴰ :
        (f : A → Option B) {xs ys : List A}
        → Permᴰ xs ys
        → Permᴰ (filter_map f xs) (filter_map f ys)
    filter_map-permᴰ f Permᴰ.nil = Permᴰ.nil
    filter_map-permᴰ f (Permᴰ.cons {b = b} e d) = rw e (push-permᴰ (f b) (filter_map-permᴰ f d))
    filter_map-permᴰ f (Permᴰ.swap {a' = a'} {b' = b'} {l = l} e₁ e₂) =
        rw (e₁, e₂) (push-swap (f b') (f a') (filter_map f l))
    filter_map-permᴰ f (Permᴰ.trans d₁ d₂) =
        Permᴰ.trans (filter_map-permᴰ f d₁) (filter_map-permᴰ f d₂)

pub map-permᴰ {ℓ κ} :
    {A : Type ℓ} {B : Type κ} (f : A → B) {xs ys : List A}
    → Permᴰ xs ys
    → Permᴰ (map f xs) (map f ys)
map-permᴰ f Permᴰ.nil = Permᴰ.nil
map-permᴰ f (Permᴰ.cons e d) = Permᴰ.cons (ap f e) (map-permᴰ f d)
map-permᴰ f (Permᴰ.swap e₁ e₂) = Permᴰ.swap (ap f e₁) (ap f e₂)
map-permᴰ f (Permᴰ.trans d₁ d₂) = Permᴰ.trans (map-permᴰ f d₁) (map-permᴰ f d₂)
