-- ===== src/Push/Identifier.antt =====
-- The identifier of a run, by `newUUIDv4` of cmd/nodecheck/push.go, as RFC 4122 describes it.
pub mod Digits
pub mod Laws
use tunnel_ops.Base.{
  ℕ, zero, suc, ◌+◌, ◌-◌, ◌*◌, ◌%◌, ◌==◌, leb, Str, ◌&&◌, [], ◌∷◌, ◌++◌, Option, none, some,
  if◌then◌else◌,
}
use tunnel_ops.Push.{assign, ◌>>=?◌}

-- The value of a hexadecimal digit.
hex_value : ℕ → Option ℕ
hex_value c =
    if leb b'0' c && leb c b'9'
    then some (c - b'0')
    else if leb b'a' c && leb c b'f'
    then some (c - b'a' + 10)
    else none

pub byte_value : ℕ → ℕ → Option ℕ
unfolding hex_value
byte_value c d = hex_value c >>=? λ x. hex_value d >>=? λ y. some (x * 16 + y)

-- A reader of n bytes, two digits each, and what is left.
pub read_bytes : ℕ → Str → Option (Str × Str)
read_bytes zero s = some ([], s)
read_bytes (suc n) [] = none
read_bytes (suc n) (c ∷ []) = none
read_bytes (suc n) (c ∷ d ∷ s) =
    byte_value c d >>=? λ b. read_bytes n s >>=? λ (bs, rest). some (b ∷ bs, rest)

pub hyphen : ℕ
hyphen = 45

read_hyphen : Str → Option Str
unfolding hyphen
read_hyphen [] = none
read_hyphen (c ∷ s) = if c == hyphen then some s else none

read_end : Str → Str → Option Str
read_end bs [] = some bs
read_end bs (c ∷ s) = none

-- The sixteen bytes of a text of the form 8-4-4-4-12.
pub read_uuid : Str → Option Str
unfolding read_bytes read_hyphen read_end
read_uuid s = read_bytes 4 s >>=? λ (a, s₁). read_hyphen s₁ >>=? λ t₁.
    read_bytes 2 t₁ >>=? λ (b, s₂). read_hyphen s₂ >>=? λ t₂. read_bytes 2 t₂ >>=? λ (c, s₃).
    read_hyphen s₃ >>=? λ t₃. read_bytes 2 t₃ >>=? λ (d, s₄). read_hyphen s₄ >>=? λ t₄.
    read_bytes 6 t₄ >>=? λ (e, s₅). read_end (a ++ (b ++ (c ++ (d ++ e)))) s₅

-- The version 4 in the upper half of byte 6, the variant 2 in the upper two bits of byte 8, and the
-- other bits at random.
pub version_4 : Str → Str
version_4 random = assign 8 (λ b. 128 + b % 64) (assign 6 (λ b. 64 + b % 16) random)
