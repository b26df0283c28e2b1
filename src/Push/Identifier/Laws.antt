-- ===== src/Push/Identifier/Laws.antt =====
-- The form of a run's identifier, by `newUUIDv4` of cmd/nodecheck/push.go.
use Prim.Native.Nat.{bit_and, bit_or}
use tunnel_ops.Base.{
  ℕ, zero, suc, ◌+◌, ◌%◌, ◌<◌, ◌==◌, ==_iff, Str, codes, [], ◌∷◌, ◌++◌, append_assoc, append-nil,
  length, All, some, ok, ◌≡◌, refl, arith,
}
use tunnel_ops.Push.{hex, new_uuid_v4}
use tunnel_ops.Push.Identifier.{hyphen, read_hyphen, read_end, read_uuid, version_4}
use tunnel_ops.Push.Identifier.Digits.{read_bytes-hex, passes_below_lem, version_bits, variant_bits}

-- The text of five groups.
abbrev grouped : Str → Str → Str → Str → Str → Str
grouped a b c d e =
    hex a ++ codes "-" ++ hex b ++ codes "-" ++ hex c ++ codes "-" ++ hex d ++ codes "-" ++ hex e

abbrev Group : ℕ → Str → Type 0
Group n s = (length s ≡ n) × All (λ b. b < 256) s

right_nested :
    (a b c d e : Str)
    → grouped a b c d e
      ≡ hex a
        ++ (hyphen
            ∷ (hex b ++ (hyphen ∷ (hex c ++ (hyphen ∷ (hex d ++ (hyphen ∷ (hex e ++ []))))))))
unfolding hyphen
right_nested a b c d e = simp (append_assoc, append-nil) refl

read_uuid-grouped :
    (a b c d e : Str)
    → Group 4 a
    → Group 2 b
    → Group 2 c
    → Group 2 d
    → Group 6 e
    → read_uuid (grouped a b c d e) ≡ some (a ++ (b ++ (c ++ (d ++ e))))
unfolding read_uuid read_hyphen read_end hyphen
read_uuid-grouped a b c d e ha hb hc hd he =
    rw
      (
        right_nested a b c d e,
        read_bytes-hex 4 a _ ha.0 ha.1,
        read_bytes-hex 2 b _ hb.0 hb.1,
        read_bytes-hex 2 c _ hc.0 hc.1,
        read_bytes-hex 2 d _ hd.0 hd.1,
        read_bytes-hex 6 e [] he.0 he.1,
      )
      refl

-- Something holds of every n bytes.
abbrev EachBytes : ℕ → (Str → Type 0) → Type 0
EachBytes zero P = P []
EachBytes (suc n) P = (b : ℕ) → b < 256 → EachBytes n (λ bs. P (b ∷ bs))

EachBytes_lem :
    (n : ℕ) (P : Str → Type 0) (bs : Str)
    → length bs ≡ n
    → All (λ b. b < 256) bs
    → EachBytes n P
    → P bs
EachBytes_lem zero P [] h below each = each
EachBytes_lem zero P (b ∷ bs) h below each = absurd (omega (arith, h))
EachBytes_lem (suc n) P [] h below each = absurd (omega (arith, h))
EachBytes_lem (suc n) P (b ∷ bs) h below each =
    EachBytes_lem n (λ xs. P (b ∷ xs)) bs (omega (arith, h)) below.1 (each b below.0)

version_byte : (b : ℕ) → b < 256 → bit_or (bit_and b 0x0f) 0x40 ≡ 64 + b % 16
version_byte b h =
    (==_iff _ _).0
      (passes_below_lem 256 (λ b. bit_or (bit_and b 0x0f) 0x40 == 64 + b % 16) b h version_bits)

variant_byte : (b : ℕ) → b < 256 → bit_or (bit_and b 0x3f) 0x80 ≡ 128 + b % 64
variant_byte b h =
    (==_iff _ _).0
      (passes_below_lem 256 (λ b. bit_or (bit_and b 0x3f) 0x80 == 128 + b % 64) b h variant_bits)

abbrev Identifies : Str → Type 0
Identifies random =
    (id : Str) × (new_uuid_v4 (ok random) ≡ ok id) × (read_uuid id ≡ some (version_4 random))

-- The identifier of a run has the form of a UUID, two digits for each of sixteen bytes in groups of
-- 4, 2, 2, 2 and 6: it is read back as the random bytes, with the version 4 in the upper half of
-- byte 6 and the variant 2 in the upper two bits of byte 8. All other 122 bits are kept.
pub new_uuid_v4-read_uuid :
    (random : Str)
    → length random ≡ 16
    → All (λ b. b < 256) random
    → (id : Str) × (new_uuid_v4 (ok random) ≡ ok id) × (read_uuid id ≡ some (version_4 random))
unfolding new_uuid_v4 version_4
new_uuid_v4-read_uuid random h below =
    EachBytes_lem 16 Identifies random h below
      λ b₀ h₀ b₁ h₁ b₂ h₂ b₃ h₃ b₄ h₄ b₅ h₅ b₆ h₆ b₇ h₇ b₈ h₈ b₉ h₉ c₀ k₀ c₁ k₁ c₂ k₂ c₃ k₃ c₄ k₄ c₅
          k₅.
        (
          _,
          refl,
          rw (version_byte b₆ h₆, variant_byte b₈ h₈)
              (read_uuid-grouped (b₀ ∷ b₁ ∷ b₂ ∷ b₃ ∷ []) (b₄ ∷ b₅ ∷ []) ((64 + b₆ % 16) ∷ b₇ ∷ [])
                ((128 + b₈ % 64) ∷ b₉ ∷ []) (c₀ ∷ c₁ ∷ c₂ ∷ c₃ ∷ c₄ ∷ c₅ ∷ [])
                (refl, (h₀, (h₁, (h₂, (h₃, tt))))) (refl, (h₄, (h₅, tt)))
                (refl, (omega arith, (h₇, tt))) (refl, (omega arith, (h₉, tt)))
                (refl, (k₀, (k₁, (k₂, (k₃, (k₄, (k₅, tt)))))))),
        )
