-- ===== src/Base/Bytes.antt =====
-- encoding/binary: the bytes of a machine word, in either order.
use Prim.Native.Nat.{ℕ, zero, suc, ◌+◌, ◌*◌, ◌/◌, ◌%◌, ◌^◌, ◌<◌}
use mathlib.Core.Path.{◌≡◌, refl, ap}
use mathlib.Core.List.{List, [], ◌∷◌, ◌++◌}
use native.Mathlib.Omega.{arith}
use native.Mathlib.Nat.{pow-suc}
use tunnel_ops.Base.Lists.{All, length, length-append}

-- PutUint32 and AppendUint32 of LittleEndian, PutUint64 and PutUint32 of BigEndian.
unfoldable pub little_endian : ℕ → ℕ → List ℕ
little_endian zero v = []
little_endian (suc n) v = (v % 256) ∷ little_endian n (v / 256)

unfoldable pub big_endian : ℕ → ℕ → List ℕ
big_endian zero v = []
big_endian (suc n) v = big_endian n (v / 256) ++ (v % 256) ∷ []

-- Uint32 of LittleEndian.
unfoldable pub from_little_endian : List ℕ → ℕ
from_little_endian [] = 0
from_little_endian (b ∷ bs) = b + 256 * from_little_endian bs

pub length-little_endian : (n v : ℕ) → length (little_endian n v) ≡ n
unfolding little_endian
length-little_endian zero v = refl
length-little_endian (suc n) v = ap suc (length-little_endian n (v / 256))

pub length-big_endian : (n v : ℕ) → length (big_endian n v) ≡ n
unfolding big_endian
length-big_endian zero v = refl
length-big_endian (suc n) v =
    omega (
      arith,
      length-append (big_endian n (v / 256)) ((v % 256) ∷ []),
      length-big_endian n (v / 256),
    )

pub from_little_endian-little_endian :
    (n v : ℕ) → v < 256 ^ n → from_little_endian (little_endian n v) ≡ v
unfolding little_endian from_little_endian
from_little_endian-little_endian zero v h = omega arith
from_little_endian-little_endian (suc n) v h =
    omega (arith, from_little_endian-little_endian n (v / 256) (omega (arith, pow-suc 256 n)))

pub from_little_endian-lt :
    (bs : List ℕ) → All (λ b. b < 256) bs → from_little_endian bs < 256 ^ length bs
unfolding from_little_endian
from_little_endian-lt [] h = omega arith
from_little_endian-lt (b ∷ bs) h =
    omega (arith, pow-suc 256 (length bs), from_little_endian-lt bs h.1)

-- Uint64 and Uint32 of BigEndian, with the bytes read so far in front.
from_big_endian_after : ℕ → List ℕ → ℕ
from_big_endian_after v [] = v
from_big_endian_after v (b ∷ bs) = from_big_endian_after (v * 256 + b) bs

unfoldable pub from_big_endian : List ℕ → ℕ
unfolding from_big_endian_after
from_big_endian bs = from_big_endian_after 0 bs

from_big_endian_after-append :
    (v b : ℕ) (bs : List ℕ)
    → from_big_endian_after v (bs ++ b ∷ []) ≡ from_big_endian_after v bs * 256 + b
unfolding from_big_endian_after
from_big_endian_after-append v b [] = refl
from_big_endian_after-append v b (b' ∷ bs) = from_big_endian_after-append (v * 256 + b') b bs

pub from_big_endian-big_endian : (n v : ℕ) → v < 256 ^ n → from_big_endian (big_endian n v) ≡ v
unfolding big_endian from_big_endian
from_big_endian-big_endian zero v h = omega arith
from_big_endian-big_endian (suc n) v h = omega (
  arith,
  from_big_endian_after-append 0 (v % 256) (big_endian n (v / 256)),
  from_big_endian-big_endian n (v / 256) (omega (arith, pow-suc 256 n)),
)
