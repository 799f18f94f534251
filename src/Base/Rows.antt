-- ===== src/Base/Rows.antt =====
-- Tables as lists of rows with a key: the row that a query by its key finds, and an update of it.
use Prim.Native.Nat.{ℕ, zero, suc}
use mathlib.Core.Path.{◌≡◌, refl, sym, subst, ◌∙◌}
use mathlib.Core.Logic.{inl, inr}
use mathlib.Core.Option.{Option, none, some}
use mathlib.Core.Bool.{Bool, true, false, ◌&&◌, ◌||◌}
use mathlib.Core.List.{List, [], ◌∷◌, ◌++◌, map}
use native.Mathlib.Omega.{arith}
use reclaim_rail.Base.Lists.{all, any, filter, take, length}
use reclaim_rail.Base.Tests.{ltb, Bool-cases, ◌==◌, if◌then◌else◌}

module _ {ℓ} {A : Type ℓ} (key : A → ℕ) where
  -- `scalar_one_or_none` of a query by the primary key
  unfoldable pub find : ℕ → List A → Option A
  find id [] = none
  find id (a ∷ as') = let rest = find id as' in if key a == id then some a else rest

  -- the row with the key of `row` takes its place
  unfoldable pub put : A → List A → List A
  put row [] = []
  put row (a ∷ as') = let rest = put row as' in if key a == key row then row ∷ as' else a ∷ rest

  pub find_key : (id : ℕ) (rows : List A) (a : A) → find id rows ≡ some a → key a ≡ id
  unfolding find
  find_key id [] a h = absurd (ground arith)
  find_key id (b ∷ rows) a h = ground (arith, find_key id rows a)

  pub find-put :
      (id : ℕ) (row old : A) (rows : List A)
      → find (key row) rows ≡ some old
      → find id (put row rows) ≡ (if key row == id then some row else find id rows)
  unfolding find put
  find-put id row old [] h = absurd (ground arith)
  find-put id row old (a ∷ rows) h = ground (arith, find-put id row old rows)

  -- a row takes the place of the one with its key
  pub found-put :
      (id : ℕ) (row old : A) (rows : List A)
      → find id rows ≡ some old
      → key row ≡ key old
      → find id (put row rows) ≡ some row
  found-put id row old rows h k =
      let at_id : key row ≡ id = k ∙ find_key id rows old h in
      let there : find (key row) rows ≡ some old =
        subst (λ i. find i rows ≡ some old) (sym at_id) h in
      ground (arith, find-put id row old rows there)

  pub find_other :
      (id : ℕ) (row : A) (rows : List A)
      → (key row == id) ≡ false
      → find id (put row rows) ≡ find id rows
  unfolding find put
  find_other id row [] h = refl
  find_other id row (a ∷ rows) h = ground (arith, find_other id row rows h)

  pub any-find :
      (t : A → Bool) (id : ℕ) (rows : List A) (a : A)
      → find id rows ≡ some a
      → t a ≡ true
      → any (λ b. t b && (key b == id)) rows ≡ true
  unfolding find
  any-find t id [] a h p = absurd (ground arith)
  any-find t id (b ∷ rows) a h p = elim (Bool-cases (key b == id)) [
    | inl e ↦ (let same : b ≡ a = ground arith in let yes : t b ≡ true = rw same p in rw (yes, e))
    | inr e ↦ ground (arith, any-find t id rows a)
  ]

  pub any_key :
      (id : ℕ) (rows : List A) (a : A)
      → find id rows ≡ some a
      → any (λ k. k == id) (map key rows) ≡ true
  unfolding find
  any_key id [] a h = absurd (ground arith)
  any_key id (b ∷ rows) a h = ground (arith, any_key id rows a)

  pub all-put :
      (t : A → Bool) (row : A) (rows : List A)
      → all t rows ≡ true
      → t row ≡ true
      → all t (put row rows) ≡ true
  unfolding put
  all-put t row [] h p = refl
  all-put t row (a ∷ rows) h p = ground (arith, all-put t row rows)

  pub all-find :
      (t : A → Bool) (id : ℕ) (rows : List A) (a : A)
      → all t rows ≡ true
      → find id rows ≡ some a
      → t a ≡ true
  unfolding find
  all-find t id [] a h row = absurd (ground arith)
  all-find t id (b ∷ rows) a h row = elim (Bool-cases (key b == id)) [
    | inl e ↦ (let same : b ≡ a = ground arith in rw (← same) (ground arith))
    | inr e ↦ ground (arith, all-find t id rows a)
  ]

  -- a new row at the end
  pub find_snoc :
      (id : ℕ) (rows : List A) (a : A)
      → find id rows ≡ none
      → key a ≡ id
      → find id (rows ++ (a ∷ [])) ≡ some a
  unfolding find
  find_snoc id [] a h k = ground arith
  find_snoc id (b ∷ rows) a h k = ground (arith, find_snoc id rows a)

-- `order_by`, where `le a b` is that `a` may come before `b`
module _ {ℓ} {A : Type ℓ} (le : A → A → Bool) where
  unfoldable pub insert : A → List A → List A
  insert a [] = a ∷ []
  insert a (b ∷ bs) = let rest = insert a bs in if le a b then a ∷ b ∷ bs else b ∷ rest

  pub any-insert : (t : A → Bool) (a : A) (bs : List A) → any t (insert a bs) ≡ (t a || any t bs)
  unfolding insert
  any-insert t a [] = refl
  any-insert t a (b ∷ bs) = ground (arith, any-insert t a bs)

  unfoldable pub sort : List A → List A
  sort [] = []
  sort (a ∷ as') = insert a (sort as')

  pub any-sort : (t : A → Bool) (as' : List A) → any t (sort as') ≡ any t as'
  unfolding sort
  any-sort t [] = refl
  any-sort t (a ∷ as') = ground (arith, any-insert t a (sort as'), any-sort t as')

module _ {ℓ} {A : Type ℓ} where
  pub any-filter :
      (t p : A → Bool) (as' : List A) → any t (filter p as') ≡ any (λ a. p a && t a) as'
  any-filter t p [] = refl
  any-filter t p (a ∷ as') = ground (arith, any-filter t p as')

  pub any-map {κ} :
      {B : Type κ} (t : B → Bool) (f : A → B) (as' : List A)
      → any t (map f as') ≡ any (λ a. t (f a)) as'
  any-map t f [] = refl
  any-map t f (a ∷ as') = ground (arith, any-map t f as')

  pub length-map {κ} : {B : Type κ} (f : A → B) (as' : List A) → length (map f as') ≡ length as'
  length-map f [] = refl
  length-map f (a ∷ as') = ground (arith, length-map f as')

  -- a prefix that is shorter than asked for is the whole list
  pub take_whole : (n : ℕ) (as' : List A) → ltb (length (take n as')) n ≡ true → take n as' ≡ as'
  take_whole zero as' h = absurd (ground arith)
  take_whole (suc n) [] h = refl
  take_whole (suc n) (a ∷ as') h = ground (arith, take_whole n as')
