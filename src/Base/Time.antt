-- ===== src/Base/Time.antt =====
-- Python's `datetime` and `timedelta`, in microseconds.
use mathlib.Core.Bool.{Bool, not}
use mathlib.Core.Option.{Option, none, some}
use reclaim_rail.Base.Int.{ℤ, ◌+ℤ◌, ltb_ℤ, leb_ℤ}
use reclaim_rail.Base.Errors.{Result, ok, Exn, raise_if}

-- `instant` counts from 1970-01-01 UTC for a value that carries a time zone; a value without one
-- keeps its wall clock there, and every constructor that the program has for its data refuses it.
pub record Datetime : Type 0 where
  pub instant : ℤ
  pub tz_aware : Bool

-- `a < b` and `a <= b` of two aware values
abbrev pub before : Datetime → Datetime → Bool
before a b = ltb_ℤ a.instant b.instant

abbrev pub not_after : Datetime → Datetime → Bool
not_after a b = leb_ℤ a.instant b.instant

-- `a + delta`
abbrev pub shift : Datetime → ℤ → Datetime
shift a delta = record a { instant = a.instant +ℤ delta }

-- `_require_timezone_aware`
abbrev pub require_timezone_aware : Datetime → Exn → Result (Unit {0})
require_timezone_aware value e = raise_if (not value.tz_aware) e

abbrev pub require_optional_aware : Option Datetime → Exn → Result (Unit {0})
require_optional_aware none e = ok tt
require_optional_aware (some value) e = require_timezone_aware value e
