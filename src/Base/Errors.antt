-- ===== src/Base/Errors.antt =====
-- The outcome of Python code that may raise: the exceptions of the modelled parts, with the texts
-- that they carry, and the monad of such code.
use mathlib.Core.Bool.{Bool, true, false, not}
use mathlib.Core.Path.{◌≡◌, refl}
use mathlib.Core.Logic.{◌⊎◌, inl, inr}
use mathlib.Core.Option.{Option, none, some}
use Prim.Native.Nat.{ℕ}
use native.Mathlib.Omega.{arith}
use mathlib.Core.List.{List, [], ◌∷◌}
use Prim.Native.String.{String}

pub data Exn : Type 0 where
  value_error : String → Exn
  projection_conflict : String → Exn
  type_error lookup_error conflict_error state_error integrity_error validation_error : String → Exn
  not_executable_error not_due_error in_progress_error : String → Exn
  -- of the provider, with `retryable`, `status_code` and `provider_error_code`
  provider_error : Bool → Option ℕ → Option String → Exn
  customer_provider_error : Exn
  -- of an execution, with `retryable` and `status_code`
  provider_failure : Bool → Option ℕ → Exn
  no_result : Exn
  -- `asyncio.CancelledError`
  cancelled : Exn

pub data Result {ℓ} (A : Type ℓ) : Type ℓ where
  ok : A → Result A
  err : Exn → Result A

infixl 5 ◌>>=◌ ◌>>◌
-- a statement that answers nothing, and the rest
abbrev pub ◌>>◌ {ℓ} : {B : Type ℓ} → Result (Unit {0}) → Result B → Result B
err e >> rest = err e
ok _ >> rest = rest

abbrev pub ◌>>=◌ {κ ℓ} : {A : Type κ} {B : Type ℓ} → Result A → (A → Result B) → Result B
err e >>= rest = err e
ok answer >>= rest = rest answer

-- `if c: raise e`
abbrev pub raise_if : Bool → Exn → Result (Unit {0})
raise_if true e = err e
raise_if false e = ok tt

-- `tuple(f(x) for x in xs)`
abbrev pub map_ok {ℓ κ} : {A : Type ℓ} {B : Type κ} → (A → Result B) → List A → Result (List B)
map_ok f [] = ok []
map_ok f (x ∷ xs) = let rest = map_ok f xs in do y ← f x; ys ← rest; ok (y ∷ ys)

abbrev pub is_ok {ℓ} : {A : Type ℓ} → Result A → Bool
is_ok (ok _) = true
is_ok (err _) = false

pub >>=-eq-ok {ℓ κ} :
    {A : Type κ} {B : Type ℓ} (m : Result A) (rest : A → Result B) {b : B}
    → (m >>= rest) ≡ ok b
    → (a : A) × (m ≡ ok a) × (rest a ≡ ok b)
>>=-eq-ok (err e) rest h = cc
>>=-eq-ok (ok value) rest h = (value, refl, h)

pub >>-eq-ok {ℓ} :
    {B : Type ℓ} (m : Result (Unit {0})) (rest : Result B) {b : B}
    → (m >> rest) ≡ ok b
    → (m ≡ ok tt) × (rest ≡ ok b)
>>-eq-ok (err e) rest h = cc
>>-eq-ok (ok value) rest h = (refl, h)

pub ok_inj {ℓ} : {A : Type ℓ} (x y : A) → ok x ≡ ok y → x ≡ y
ok_inj x y h = cc

pub Result-cases {ℓ} :
    {A : Type ℓ} (r : Result A) → ((e : Exn) × (r ≡ err e)) ⊎ ((a : A) × (r ≡ ok a))
Result-cases (ok a) = inr (a, refl)
Result-cases (err e) = inl (e, refl)

pub map_ok-cons {ℓ κ} :
    {A : Type ℓ} {B : Type κ} (f : A → Result B) (x : A) (xs : List A) (rs : List B)
    → map_ok f (x ∷ xs) ≡ ok rs
    → (y : B) × (ys : List B) × (f x ≡ ok y) × (map_ok f xs ≡ ok ys) × (rs ≡ y ∷ ys)
map_ok-cons f x xs rs h =
    let (y, p, q) = >>=-eq-ok (f x) (λ y. map_ok f xs >>= λ ys. ok (y ∷ ys)) h in
    let (ys, r, s) = >>=-eq-ok (map_ok f xs) (λ ys. ok (y ∷ ys)) q in (y, ys, p, r, cc)

-- `if row is None: raise e`
abbrev pub present {ℓ} : {A : Type ℓ} → Option A → Exn → Result A
present none e = err e
present (some a) e = ok a

pub present-some {ℓ} :
    {A : Type ℓ} (o : Option A) (e : Exn) (a : A) → present o e ≡ ok a → o ≡ some a
present-some none e a h = cc
present-some (some b) e a h = cc

pub after_guards {ℓ} :
    {A : Type ℓ} (b c : Bool) (x y : Exn) (rest : Result A) (answer : A)
    → (raise_if b x >> (raise_if c y >> rest)) ≡ ok answer
    → rest ≡ ok answer
after_guards false false x y rest answer h = h
after_guards true c x y rest answer h = cc
after_guards false true x y rest answer h = cc

pub some_inj {ℓ} : {A : Type ℓ} (x y : A) → some x ≡ some y → x ≡ y
some_inj x y h = cc

-- `if not t: raise e` that has not raised
pub passed_guard : (t : Bool) (e : Exn) → raise_if (not t) e ≡ ok tt → t ≡ true
passed_guard true e h = refl
passed_guard false e h = absurd (ground arith)
