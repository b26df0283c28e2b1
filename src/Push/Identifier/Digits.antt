-- ===== src/Push/Identifier/Digits.antt =====
-- The digits of a byte slice in a run's identifier (cmd/nodecheck/push.go), and the bits that are pinned.
use Prim.Native.Nat.{bit_and, bit_or}
use tunnel_ops.Base.{
  ℕ, zero, suc, ◌+◌, ◌%◌, ◌<◌, ◌==◌, ==_iff, Str, hexadecimal, padded, Bool, true, false, ◌&&◌, [],
  ◌∷◌, ◌++◌, length, All, Option, none, some, ◌≡◌, refl, ap, arith,
}
use tunnel_ops.Push.{hex}
use tunnel_ops.Push.Identifier.{byte_value, read_bytes}

-- A test of all numbers below a bound.
pub passes_below : ℕ → (ℕ → Bool) → Bool
passes_below zero p = true
passes_below (suc n) p = passes_below n p && p n

pub passes_below_lem : (n : ℕ) (p : ℕ → Bool) (x : ℕ) → x < n → passes_below n p ≡ true → p x ≡ true
unfolding passes_below
passes_below_lem zero p x below h = absurd (omega (arith, below))
passes_below_lem (suc n) p x below h = ground (arith, passes_below_lem n p x)

pub version_bits : passes_below 256 (λ b. bit_or (bit_and b 0x0f) 0x40 == 64 + b % 16) ≡ true
unfolding passes_below
version_bits = refl

pub variant_bits : passes_below 256 (λ b. bit_or (bit_and b 0x3f) 0x80 == 128 + b % 64) ≡ true
unfolding passes_below
variant_bits = refl

has_value : Option ℕ → ℕ → Bool
has_value none b = false
has_value (some c) b = c == b

-- Whether a text is the two digits of a byte.
is_byte : Str → ℕ → Bool
unfolding has_value byte_value
is_byte [] b = false
is_byte (c ∷ []) b = false
is_byte (c ∷ d ∷ []) b = has_value (byte_value c d) b
is_byte (c ∷ d ∷ e ∷ s) b = false

byte_digits : passes_below 256 (λ b. is_byte (padded 2 (hexadecimal b)) b) ≡ true
unfolding passes_below is_byte padded hexadecimal
byte_digits = refl

is_byte_lem :
    (s : Str) (b : ℕ)
    → is_byte s b ≡ true
    → (c d : ℕ) × (s ≡ c ∷ d ∷ []) × (byte_value c d ≡ some b)
unfolding is_byte has_value
is_byte_lem [] b h = cc
is_byte_lem (c ∷ []) b h = cc
is_byte_lem (c ∷ d ∷ []) b h = (c, d, refl, valued (byte_value c d) h)
  where
    valued : (o : Option ℕ) → has_value o b ≡ true → o ≡ some b
    valued none k = cc
    valued (some x) k = ap some ((==_iff x b).0 k)
is_byte_lem (c ∷ d ∷ e ∷ s) b h = cc

-- What a byte slice is printed as is read back as its bytes.
pub read_bytes-hex :
    (n : ℕ) (bs rest : Str)
    → length bs ≡ n
    → All (λ b. b < 256) bs
    → read_bytes n (hex bs ++ rest) ≡ some (bs, rest)
unfolding read_bytes
read_bytes-hex zero [] rest h below = refl
read_bytes-hex zero (b ∷ bs) rest h below = absurd (omega (arith, h))
read_bytes-hex (suc n) [] rest h below = absurd (omega (arith, h))
read_bytes-hex (suc n) (b ∷ bs) rest h below =
    let (c, d, printed, valued) =
      is_byte_lem (padded 2 (hexadecimal b)) b
        (passes_below_lem 256 (λ x. is_byte (padded 2 (hexadecimal x)) x) b below.0 byte_digits) in
    rw (printed, valued, read_bytes-hex n bs rest (omega (arith, h)) below.1) refl
