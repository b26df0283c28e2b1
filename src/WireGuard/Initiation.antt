-- ===== src/WireGuard/Initiation.antt =====
-- cmd/nodecheck/prober_wireguard.go: `wgInitiation` and `buildWGInitiation`. The random source is an
-- argument: the key that it generates and the bytes of the sender index, or the error of either.
pub mod Layout
pub mod Handshake
pub mod Accepted
use tunnel_ops.Base.{
  ℕ, ◌==◌, Str, codes, decimal, length, replicate, not, [], ◌∷◌, ◌++◌, Except, ok, fail_if, wrap,
  ◌>>=◌, ◌>>◌,
}
use tunnel_ops.Base.Bytes.{little_endian, from_little_endian}
use tunnel_ops.WireGuard.Primitives.{Crypto}
use tunnel_ops.WireGuard.Noise.{copied, wg_hash, wg_kdf1, wg_kdf2, wg_seal, wg_tai64n}

abbrev pub wg_construction : Str
wg_construction = codes "Noise_IKpsk2_25519_ChaChaPoly_BLAKE2s"

abbrev pub wg_identifier : Str
wg_identifier = codes "WireGuard v1 zx2c4 Jason@zx2c4.com"

abbrev pub wg_label_mac1 : Str
wg_label_mac1 = codes "mac1----"

abbrev pub wg_msg_initiation : ℕ
wg_msg_initiation = 1

abbrev pub wg_initiation_size : ℕ
wg_initiation_size = 148

abbrev pub wg_mac_size : ℕ
wg_mac_size = 16

pub record WgInitiation : Type 0 where
  pub packet : Str
  pub sender_index : ℕ

module _ (c : Crypto) where
  open c use {PublicKey, PrivateKey, public_key, key_bytes, ecdh, blake2s_128}

  pub record Random : Type 0 where
    pub ephemeral : Except PrivateKey
    pub index : Except Str

  -- The check of the length before the return.
  finished : Str → ℕ → Except WgInitiation
  finished packet sender_index = do
    fail_if (not (length packet == wg_initiation_size)) (
        codes "built a "
        ++ decimal (length packet)
        ++ codes "-byte initiation, want "
        ++ decimal wg_initiation_size)
    ok (record { packet = packet; sender_index = sender_index })

  unfoldable pub build_wg_initiation : PublicKey → PrivateKey → ℕ → Random → Except WgInitiation
  unfolding finished
  build_wg_initiation peer static now random = do
    let peer_pub = key_bytes peer
    let ck = wg_hash c (wg_construction ∷ [])
    let hi = wg_hash c (ck ∷ wg_identifier ∷ [])
    let h = wg_hash c (hi ∷ peer_pub ∷ [])
    eph ← wrap (codes "generating ephemeral key: ") random.ephemeral
    let eph_pub = key_bytes (public_key eph)
    idx ← wrap (codes "generating sender index: ") random.index
    let sender_index = from_little_endian (copied 4 idx)
    let packet = wg_msg_initiation ∷ 0 ∷ 0 ∷ 0 ∷ []
    let packet₁ = packet ++ little_endian 4 sender_index
    let packet₂ = packet₁ ++ eph_pub
    let h₁ = wg_hash c (h ∷ eph_pub ∷ [])
    let ck₁ = wg_kdf1 c ck eph_pub
    dh_ephemeral ← wrap (codes "ephemeral DH: ") (ecdh eph peer)
    let (ck₂, key) = wg_kdf2 c ck₁ dh_ephemeral
    encrypted_static ← wg_seal c key (key_bytes (public_key static)) h₁
    let packet₃ = packet₂ ++ encrypted_static
    let h₂ = wg_hash c (h₁ ∷ encrypted_static ∷ [])
    dh_static ← wrap (codes "static DH: ") (ecdh static peer)
    let (ck₃, key₁) = wg_kdf2 c ck₂ dh_static
    encrypted_timestamp ← wg_seal c key₁ (wg_tai64n now) h₂
    let packet₄ = packet₃ ++ encrypted_timestamp
    let mac1_key = wg_hash c (wg_label_mac1 ∷ peer_pub ∷ [])
    mac ← wrap (codes "mac1: ") (blake2s_128 mac1_key)
    let packet₅ = packet₄ ++ mac packet₄
    let packet₆ = packet₅ ++ replicate wg_mac_size 0
    finished packet₆ sender_index
