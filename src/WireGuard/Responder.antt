-- ===== src/WireGuard/Responder.antt =====
-- cmd/nodecheck/prober_wireguard_test.go: the responder's half of the handshake, written there from
-- the whitepaper and not from the prober's own helpers. A failure of the test is an error here.
use tunnel_ops.Base.{
  ℕ, zero, suc, ◌+◌, ◌==◌, Str, codes, str_eq, concat, length, replicate, not, List, [], ◌∷◌, ◌++◌,
  Except, ok, fail_if, ◌>>=◌, ◌>>◌,
}
use tunnel_ops.WireGuard.Primitives.{Crypto}
use tunnel_ops.WireGuard.Noise.{slice}
use tunnel_ops.WireGuard.Initiation.{wg_construction, wg_identifier}

abbrev pub output : ℕ → List Str → Str
output i [] = []
output zero (k ∷ ks) = k
output (suc i) (k ∷ ks) = output i ks

module _ (c : Crypto) where
  open c use {
    PrivateKey, new_public_key, public_key, key_bytes, ecdh, blake2s_256, hmac_blake2s, open_with,
  }

  unfoldable pub wg_test_hash : List Str → Str
  wg_test_hash parts = blake2s_256 (concat parts)

  -- The loop of `wgTestKDF`, from the i-th output on, with n left.
  test_kdf_from : Str → Str → ℕ → ℕ → List Str
  test_kdf_from temp prev i zero = []
  test_kdf_from temp prev i (suc n) =
      let out = hmac_blake2s temp (prev ++ i ∷ []) in out ∷ test_kdf_from temp out (i + 1) n

  unfoldable pub wg_test_kdf : Str → Str → ℕ → List Str
  unfolding test_kdf_from
  wg_test_kdf ck input n = test_kdf_from (hmac_blake2s ck input) [] 1 n

  unfoldable pub wg_test_open : Str → Str → Str → Except Str
  wg_test_open key ciphertext aad = do
    unseal ← open_with key
    unseal (replicate 12 0) ciphertext aad

  -- The initiator's static public key and its timestamp.
  unfoldable pub consume_initiation : PrivateKey → Str → Except (Str × Str)
  consume_initiation responder packet = do
    fail_if (not (length packet == 148)) (codes "size")
    fail_if (not (str_eq (slice 0 1 packet) (1 ∷ []))) (codes "message type")
    fail_if (not (str_eq (slice 1 4 packet) (0 ∷ 0 ∷ 0 ∷ []))) (codes "reserved bytes")
    let responder_pub = key_bytes (public_key responder)
    let ck = wg_test_hash (wg_construction ∷ [])
    let h = wg_test_hash (wg_test_hash (ck ∷ wg_identifier ∷ []) ∷ responder_pub ∷ [])
    let ephemeral = slice 8 40 packet
    let h₁ = wg_test_hash (h ∷ ephemeral ∷ [])
    let ck₁ = output 0 (wg_test_kdf ck ephemeral 1)
    eph_pub ← new_public_key ephemeral
    dh ← ecdh responder eph_pub
    let keys = wg_test_kdf ck₁ dh 2
    let ck₂ = output 0 keys
    let enc_static = slice 40 88 packet
    static_pub ← wg_test_open (output 1 keys) enc_static h₁
    let h₂ = wg_test_hash (h₁ ∷ enc_static ∷ [])
    initiator_static ← new_public_key static_pub
    dh' ← ecdh responder initiator_static
    let keys' = wg_test_kdf ck₂ dh' 2
    let enc_time = slice 88 116 packet
    timestamp ← wg_test_open (output 1 keys') enc_time h₂
    ok (static_pub, timestamp)
