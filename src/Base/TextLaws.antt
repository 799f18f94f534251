-- ===== src/Base/TextLaws.antt =====
-- Normalising a text twice is normalising it once.
use Prim.Native.Char.{Char, code}
use Prim.Native.String as Str
use Prim.Native.String.{String}
use mathlib.Core.Path.{◌≡◌, refl}
use mathlib.Core.Logic.{◌⊎◌, inl, inr}
use mathlib.Core.Bool.{Bool, true, ◌&&◌, not}
use native.Mathlib.Omega.{arith}
use text.Mathlib.TextEquality.{Char-path}
use reclaim_rail.Base.Tests.{◌==◌, ==_iff, Bool-cases}
use reclaim_rail.Base.Text.{
  is_space, is_empty, lstrip, rstrip, strip, translate, map_text, lower_letters, upper_letters,
  upper, casefold,
}

-- a text that does not begin with a space
abbrev begins_visible : String → Bool
begins_visible Str.[] = true
begins_visible (Str.◌∷◌ c s) = not (is_space c)

begins_visible-lstrip : (s : String) → begins_visible (lstrip s) ≡ true
unfolding lstrip
begins_visible-lstrip Str.[] = refl
begins_visible-lstrip (Str.◌∷◌ c s) = elim (Bool-cases (is_space c)) [
  | inl e ↦ rw e (begins_visible-lstrip s)
  | inr e ↦ rw e (rw e)
]

lstrip_visible : (s : String) → begins_visible s ≡ true → lstrip s ≡ s
unfolding lstrip
lstrip_visible Str.[] h = refl
lstrip_visible (Str.◌∷◌ c s) h = elim (Bool-cases (is_space c)) [
  | inl e ↦ absurd (ground arith)
  | inr e ↦ rw e
]

begins_visible-rstrip : (s : String) → begins_visible s ≡ true → begins_visible (rstrip s) ≡ true
unfolding rstrip
begins_visible-rstrip Str.[] h = refl
begins_visible-rstrip (Str.◌∷◌ c s) h = elim (Bool-cases (is_space c)) [
  | inl e ↦ absurd (ground arith)
  | inr e ↦ rw e (rw e)
]

rstrip_idem : (s : String) → rstrip (rstrip s) ≡ rstrip s
unfolding rstrip
rstrip_idem Str.[] = refl
rstrip_idem (Str.◌∷◌ c s) = elim (Bool-cases (is_space c && is_empty (rstrip s))) [
  | inl e ↦ rw e
  | inr e ↦ rw e (rw (rstrip_idem s) (rw e))
]

pub strip_idem : (s : String) → strip (strip s) ≡ strip s
unfolding strip
strip_idem s =
    let v = begins_visible-rstrip (lstrip s) (begins_visible-lstrip s) in
    rw (lstrip_visible (rstrip (lstrip s)) v) (rstrip_idem (lstrip s))

module _ (f : Char → Char) (keeps : (c : Char) → is_space (f c) ≡ is_space c) where
  lstrip-map : (s : String) → lstrip (map_text f s) ≡ map_text f (lstrip s)
  unfolding lstrip
  lstrip-map Str.[] = refl
  lstrip-map (Str.◌∷◌ c s) = elim (Bool-cases (is_space c)) [
    | inl e ↦ rw (keeps c, e) (lstrip-map s)
    | inr e ↦ rw (keeps c, e)
  ]

  is_empty-map : (s : String) → is_empty (map_text f s) ≡ is_empty s
  is_empty-map Str.[] = refl
  is_empty-map (Str.◌∷◌ c s) = refl

  rstrip-map : (s : String) → rstrip (map_text f s) ≡ map_text f (rstrip s)
  unfolding rstrip
  rstrip-map Str.[] = refl
  rstrip-map (Str.◌∷◌ c s) = elim (Bool-cases (is_space c && is_empty (rstrip s))) [
    | inl e ↦ rw (rstrip-map s, keeps c, is_empty-map (rstrip s), e)
    | inr e ↦ rw (rstrip-map s, keeps c, is_empty-map (rstrip s), e)
  ]

  strip-map : (s : String) → strip (map_text f s) ≡ map_text f (strip s)
  unfolding strip
  strip-map s = rw (lstrip-map s) (rstrip-map (lstrip s))

map_text_idem :
    (f : Char → Char)
    → ((c : Char) → f (f c) ≡ f c)
    → (s : String) → map_text f (map_text f s) ≡ map_text f s
map_text_idem f h Str.[] = refl
map_text_idem f h (Str.◌∷◌ c s) = rw (h c, map_text_idem f h s)

-- a test of every character of a text
abbrev all_text : (Char → Bool) → String → Bool
all_text p Str.[] = true
all_text p (Str.◌∷◌ c s) = p c && all_text p s

-- What the table leaves in place, or moves from one letter to another.
translate_cases :
    (p q : Char → Bool) (froms tos : String) (c : Char)
    → all_text p froms ≡ true
    → all_text q tos ≡ true
    → (translate froms tos c ≡ c) ⊎ (p c ≡ true) × (q (translate froms tos c) ≡ true)
unfolding translate
translate_cases p q Str.[] tos c hp hq = inl refl
translate_cases p q (Str.◌∷◌ a froms) Str.[] c hp hq = inl refl
translate_cases p q (Str.◌∷◌ a froms) (Str.◌∷◌ b tos) c hp hq =
    elim (Bool-cases (code a == code c)) [
      | inl e ↦
          (let same = Char-path a c ((==_iff (code a) (code c)).0 e) in
            rw e (inr (rw (← same) (ground arith), ground arith)))
      | inr e ↦ rw e (translate_cases p q froms tos c (ground arith) (ground arith))
    ]

abbrev visible : Char → Bool
visible c = not (is_space c)

-- a character that the table leaves in place
abbrev fixed : String → String → Char → Bool
fixed froms tos c = code (translate froms tos c) == code c

-- A table that moves visible characters to visible ones, and none of these on.
module _ (froms tos : String) (from_visible : all_text visible froms ≡ true)
    (to_visible : all_text visible tos ≡ true) (to_fixed : all_text (fixed froms tos) tos ≡ true)
    (any : all_text (λ _. true) froms ≡ true) where
  is_space-translate : (c : Char) → is_space (translate froms tos c) ≡ is_space c
  is_space-translate c =
      elim (translate_cases visible visible froms tos c from_visible to_visible) [
        | inl e ↦ rw e
        | inr (p, q) ↦ ground arith
      ]

  translate_idem : (c : Char) → translate froms tos (translate froms tos c) ≡ translate froms tos c
  translate_idem c = elim (translate_cases (λ _. true) (fixed froms tos) froms tos c any to_fixed) [
    | inl e ↦ rw (e, e)
    | inr (p, q) ↦ Char-path _ _ ((==_iff _ _).0 q)
  ]

  map-strip_idem :
      (s : String) → let f = map_text (translate froms tos) in f (strip (f (strip s))) ≡ f (strip s)
  map-strip_idem s =
      rw (strip-map (translate froms tos) is_space-translate (strip s), strip_idem s)
        (map_text_idem (translate froms tos) translate_idem (strip s))

pub upper-strip_idem : (s : String) → upper (strip (upper (strip s))) ≡ upper (strip s)
unfolding upper translate is_space
upper-strip_idem s = map-strip_idem lower_letters upper_letters refl refl refl refl s

pub casefold-strip_idem : (s : String) → casefold (strip (casefold (strip s))) ≡ casefold (strip s)
unfolding casefold translate is_space
casefold-strip_idem s = map-strip_idem upper_letters lower_letters refl refl refl refl s
