-- ===== src/Prelude/Text.antt =====
-- What the program uses of Go's `strings` package, on the code points of a text.
use Prim.Native.Nat.{ℕ, ◌+◌}
use Prim.Native.Char.{code}
use Prim.Native.String.{String}
use mathlib.Core.Path.{◌≡◌, refl}
use mathlib.Core.Bool.{Bool, true, false, ◌&&◌, ◌||◌}
use mathlib.Core.List.{List, [], ◌∷◌}
use native.Mathlib.Omega.{arith}
use easy_proxies.Prelude.Tests.{ltb, leb, ◌==◌, if◌then◌else◌}

abbrev pub codes : String → List ℕ
codes String.[] = []
codes (String.◌∷◌ c s) = code c ∷ codes s

-- `unicode.IsSpace`
unfoldable pub is_space : ℕ → Bool
is_space c =
    (leb 9 c && leb c 13)
    || c == 32
    || c == 0x85
    || c == 0xA0
    || c == 0x1680
    || (leb 0x2000 c && leb c 0x200A)
    || c == 0x2028
    || c == 0x2029
    || c == 0x202F
    || c == 0x205F
    || c == 0x3000

unfoldable pub trim_left : List ℕ → List ℕ
unfolding is_space
trim_left [] = []
trim_left (c ∷ s) = let rest = trim_left s in if is_space c then rest else c ∷ s

-- A blank is dropped at the end only if nothing but blanks follows it.
keep_front : ℕ → List ℕ → List ℕ
unfolding is_space
keep_front c [] = if is_space c then [] else c ∷ []
keep_front c (d ∷ s) = c ∷ d ∷ s

unfoldable pub trim_right : List ℕ → List ℕ
unfolding keep_front
trim_right [] = []
trim_right (c ∷ s) = keep_front c (trim_right s)

-- `strings.TrimSpace`
unfoldable pub trim_space : List ℕ → List ℕ
unfolding trim_left trim_right
trim_space s = trim_right (trim_left s)

-- `strings.ToLower` on the ASCII letters; other code points stay.
unfoldable pub lower : List ℕ → List ℕ
lower [] = []
lower (c ∷ s) = (if leb b'A' c && leb c b'Z' then c + 32 else c) ∷ lower s

unfoldable pub codes_eq : List ℕ → List ℕ → Bool
codes_eq [] [] = true
codes_eq [] (b ∷ bs) = false
codes_eq (a ∷ as') [] = false
codes_eq (a ∷ as') (b ∷ bs) = a == b && codes_eq as' bs

-- Go compares strings by bytes, which for UTF-8 is the order of the code points.
unfoldable pub codes_lt : List ℕ → List ℕ → Bool
codes_lt [] [] = false
codes_lt [] (b ∷ bs) = true
codes_lt (a ∷ as') [] = false
codes_lt (a ∷ as') (b ∷ bs) = if a == b then codes_lt as' bs else ltb a b

pub codes_eq_self : (s : List ℕ) → codes_eq s s ≡ true
unfolding codes_eq
codes_eq_self [] = refl
codes_eq_self (c ∷ s) = ground (arith, codes_eq_self s)

pub codes_eq→eq : (s t : List ℕ) → codes_eq s t ≡ true → s ≡ t
unfolding codes_eq
codes_eq→eq [] [] h = refl
codes_eq→eq [] (d ∷ t) h = ground arith
codes_eq→eq (c ∷ s) [] h = ground arith
codes_eq→eq (c ∷ s) (d ∷ t) h = ground (arith, codes_eq→eq s t)

pub codes_lt_irrefl : (s : List ℕ) → codes_lt s s ≡ false
unfolding codes_lt
codes_lt_irrefl [] = refl
codes_lt_irrefl (c ∷ s) = ground (arith, codes_lt_irrefl s)

pub codes_lt_trans :
    (s t u : List ℕ) → codes_lt s t ≡ true → codes_lt t u ≡ true → codes_lt s u ≡ true
unfolding codes_lt
codes_lt_trans [] [] u h k = ground arith
codes_lt_trans [] (d ∷ t) [] h k = ground arith
codes_lt_trans [] (d ∷ t) (e ∷ u) h k = refl
codes_lt_trans (c ∷ s) [] u h k = ground arith
codes_lt_trans (c ∷ s) (d ∷ t) [] h k = ground arith
codes_lt_trans (c ∷ s) (d ∷ t) (e ∷ u) h k = ground (arith, codes_lt_trans s t u)

pub codes_lt_total : (s t : List ℕ) → codes_lt s t ≡ false → codes_lt t s ≡ false → s ≡ t
unfolding codes_lt
codes_lt_total [] [] h k = refl
codes_lt_total [] (d ∷ t) h k = ground arith
codes_lt_total (c ∷ s) [] h k = ground arith
codes_lt_total (c ∷ s) (d ∷ t) h k = ground (arith, codes_lt_total s t)

pub codes_lt_asymm : (s t : List ℕ) → codes_lt s t ≡ true → codes_lt t s ≡ false
unfolding codes_lt
codes_lt_asymm [] [] h = ground arith
codes_lt_asymm [] (d ∷ t) h = refl
codes_lt_asymm (c ∷ s) [] h = ground arith
codes_lt_asymm (c ∷ s) (d ∷ t) h = ground (arith, codes_lt_asymm s t)

pub codes_lt_between :
    (s t u : List ℕ) → codes_lt s t ≡ false → codes_lt t u ≡ false → codes_lt s u ≡ false
unfolding codes_lt
codes_lt_between [] [] u h k = k
codes_lt_between [] (d ∷ t) u h k = ground arith
codes_lt_between (c ∷ s) t [] h k = refl
codes_lt_between (c ∷ s) [] (e ∷ u) h k = ground arith
codes_lt_between (c ∷ s) (d ∷ t) (e ∷ u) h k = ground (arith, codes_lt_between s t u)
