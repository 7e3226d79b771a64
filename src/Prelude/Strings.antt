-- ===== src/Prelude/Strings.antt =====
-- Go's `strings` on texts: trimming, and that it is done once.
use Prim.Native.Char.{Char, code}
use Prim.Native.String.{String}
use mathlib.Core.Path.{◌≡◌, refl, ap, ◌∙◌}
use mathlib.Core.Bool.{false}
use mathlib.Core.Logic.{inl, inr}
use easy_proxies.Prelude.Tests.{if◌then◌else◌, Bool-cases}
use easy_proxies.Prelude.Text.{is_space}

unfoldable pub trim_start : String → String
unfolding is_space
trim_start String.[] = ""
trim_start (String.◌∷◌ c s) =
    let rest = trim_start s in if is_space (code c) then rest else String.◌∷◌ c s

-- A blank stays in front of what stays.
unfoldable pub keep_char : Char → String → String
unfolding is_space
keep_char c String.[] = if is_space (code c) then "" else String.◌∷◌ c ""
keep_char c (String.◌∷◌ d s) = String.◌∷◌ c (String.◌∷◌ d s)

unfoldable pub trim_end : String → String
unfolding keep_char
trim_end String.[] = ""
trim_end (String.◌∷◌ c s) = keep_char c (trim_end s)

-- `strings.TrimSpace`
unfoldable pub trim : String → String
unfolding trim_start trim_end
trim s = trim_end (trim_start s)

trim_end-keep_char :
    (c : Char) (s : String) → trim_end s ≡ s → trim_end (keep_char c s) ≡ keep_char c s
unfolding trim_end keep_char
trim_end-keep_char c String.[] h = elim (Bool-cases (is_space (code c))) [
  | inl y ↦ rw y refl
  | inr n ↦ rw n (rw n refl)
]
trim_end-keep_char c (String.◌∷◌ d s) h = ap (keep_char c) h

trim_end_twice : (s : String) → trim_end (trim_end s) ≡ trim_end s
unfolding trim_end
trim_end_twice String.[] = refl
trim_end_twice (String.◌∷◌ c s) = trim_end-keep_char c (trim_end s) (trim_end_twice s)

keep_char-nonspace :
    (c : Char) (s : String) → is_space (code c) ≡ false → keep_char c s ≡ String.◌∷◌ c s
unfolding keep_char
keep_char-nonspace c String.[] n = rw n refl
keep_char-nonspace c (String.◌∷◌ d s) n = refl

trim_start-nonspace :
    (c : Char) (s : String)
    → is_space (code c) ≡ false
    → trim_start (String.◌∷◌ c s) ≡ String.◌∷◌ c s
unfolding trim_start
trim_start-nonspace c s n = rw n refl

trim_start-trim_end : (s : String) → trim_start (trim_end (trim_start s)) ≡ trim_end (trim_start s)
unfolding trim_start trim_end
trim_start-trim_end String.[] = refl
trim_start-trim_end (String.◌∷◌ c s) = elim (Bool-cases (is_space (code c))) [
  | inl y ↦ rw y (trim_start-trim_end s)
  | inr n ↦ rw n (rw (keep_char-nonspace c (trim_end s) n) (trim_start-nonspace c (trim_end s) n))
]

-- Trimming is done once.
pub trim-trim : (s : String) → trim (trim s) ≡ trim s
unfolding trim
trim-trim s = ap trim_end (trim_start-trim_end s) ∙ trim_end_twice (trim_start s)
