-- ===== src/Base/Text.antt =====
-- Go strings: lists of bytes. A literal is ASCII, so that its code points are its bytes.
use Prim.Native.Char.{code}
use Prim.Native.Nat.{ℕ, zero, suc, ◌+◌, ◌-◌, ◌/◌, ◌%◌, compare, Ordering}
use Prim.Native.String.{String}
use mathlib.Core.Path.{◌≡◌, refl}
use mathlib.Core.Logic.{◌≢◌, ◌↔◌, ◌⊎◌, inl, inr}
use mathlib.Core.Bool.{Bool, true, false, ◌&&◌}
use mathlib.Core.List.{List, [], ◌∷◌, ◌++◌}
use native.Mathlib.Omega.{arith}
use tunnel_ops.Base.Tests.{ltb, ◌==◌, if◌then◌else◌}
use tunnel_ops.Base.Lists.{length, replicate}

abbrev pub Str : Type 0
Str = List ℕ

abbrev pub codes : String → Str
codes String.[] = []
codes (String.◌∷◌ c s) = code c ∷ codes s

unfoldable pub str_eq : Str → Str → Bool
str_eq [] [] = true
str_eq [] (y ∷ ys) = false
str_eq (x ∷ xs) [] = false
str_eq (x ∷ xs) (y ∷ ys) = x == y && str_eq xs ys

str_eq_sound : (s t : Str) → str_eq s t ≡ true → s ≡ t
unfolding str_eq
str_eq_sound [] [] h = refl
str_eq_sound [] (y ∷ ys) h = cc
str_eq_sound (x ∷ xs) [] h = cc
str_eq_sound (x ∷ xs) (y ∷ ys) h = ground (arith, str_eq_sound xs ys)

pub str_eq_refl : (s : Str) → str_eq s s ≡ true
unfolding str_eq
str_eq_refl [] = refl
str_eq_refl (x ∷ xs) = ground (arith, str_eq_refl xs)

pub str_eq_iff : (s t : Str) → (str_eq s t ≡ true) ↔ (s ≡ t)
str_eq_iff s t = (str_eq_sound s t, λ e. rw e (str_eq_refl t))

-- Whether a string is "".
abbrev pub is_empty : Str → Bool
is_empty [] = true
is_empty (c ∷ s) = false

pub is_empty-cases :
    (s : Str) → ((s ≡ []) × (is_empty s ≡ true)) ⊎ ((s ≢ []) × (is_empty s ≡ false))
is_empty-cases [] = inl (refl, refl)
is_empty-cases (c ∷ s) = inr ((λ h. cc), refl)

-- `fmt` of a number in a base: the digits, with the lower-case letters from ten on.
abbrev digit : ℕ → ℕ
digit d = if ltb d 10 then b'0' + d else b'a' + (d - 10)

-- At most `n` digits are read off, and `n + 1` of them suffice for `n`.
digits_of : ℕ → ℕ → ℕ → Str
digits_of zero base n = []
digits_of (suc fuel) base n =
    let higher = digits_of fuel base (n / base) in
    if ltb n base then digit n ∷ [] else higher ++ digit (n % base) ∷ []

-- `%d`, `%x` of a number that is not negative.
unfoldable pub decimal : ℕ → Str
unfolding digits_of
decimal n = digits_of (suc n) 10 n

unfoldable pub hexadecimal : ℕ → Str
unfolding digits_of
hexadecimal n = digits_of (suc n) 16 n

-- `%0wx`: zeroes in front, up to a width.
unfoldable pub padded : ℕ → Str → Str
padded width s = replicate (width - length s) b'0' ++ s

-- `<` of strings, byte by byte.
unfoldable pub str_lt : Str → Str → Bool
str_lt [] [] = false
str_lt [] (y ∷ ys) = true
str_lt (x ∷ xs) [] = false
str_lt (x ∷ xs) (y ∷ ys) = elim (compare x y) [
  | Ordering.lt ↦ true
  | Ordering.eq ↦ str_lt xs ys
  | Ordering.gt ↦ false
]
