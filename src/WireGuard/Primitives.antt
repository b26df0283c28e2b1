-- ===== src/WireGuard/Primitives.antt =====
-- What cmd/nodecheck/prober_wireguard.go uses of crypto/ecdh, crypto/hmac and golang.org/x/crypto:
-- the operations as a record, and as another what their documentation promises.
use tunnel_ops.Base.{◌+◌, Str, length, Except, ok, ◌≡◌}

pub record Crypto : Type 1 where
  pub PublicKey : Type 0
  pub PrivateKey : Type 0
  -- `ecdh.X25519().NewPublicKey` and `NewPrivateKey`
  pub new_public_key : Str → Except PublicKey
  pub new_private_key : Str → Except PrivateKey
  -- `PrivateKey.PublicKey`, `PublicKey.Bytes`, `PrivateKey.ECDH`
  pub public_key : PrivateKey → PublicKey
  pub key_bytes : PublicKey → Str
  pub ecdh : PrivateKey → PublicKey → Except Str
  -- `blake2s.New256(nil)`, of all that is written to it. With no key it does not fail.
  pub blake2s_256 : Str → Str
  -- `blake2s.New128(key)`, of all that is written to it.
  pub blake2s_128 : Str → Except (Str → Str)
  -- `hmac.New(wgBlake2s, key)`, of the data.
  pub hmac_blake2s : Str → Str → Str
  -- `chacha20poly1305.New(key)`: what `Seal` makes of a nonce, a plaintext and associated data.
  pub seal_with : Str → Except (Str → Str → Str → Str)
  -- `Open` of the same cipher, of a nonce, a ciphertext and associated data.
  pub open_with : Str → Except (Str → Str → Str → Except Str)

module _ (c : Crypto) where
  open c use {
    PublicKey, PrivateKey, new_public_key, public_key, key_bytes, ecdh, blake2s_256, blake2s_128,
    hmac_blake2s, seal_with, open_with,
  }

  -- The sizes of keys, digests and sealed messages.
  pub record Sizes : Type 0 where
    pub key_size : (k : PublicKey) → length (key_bytes k) ≡ 32
    pub hash_size : (s : Str) → length (blake2s_256 s) ≡ 32
    pub hmac_size : (k s : Str) → length (hmac_blake2s k s) ≡ 32
    pub mac_size :
        (k : Str) (mac : Str → Str) (s : Str) → blake2s_128 k ≡ ok mac → length (mac s) ≡ 16
    pub seal_size :
        (k : Str) (seal : Str → Str → Str → Str) (nonce plaintext aad : Str)
        → seal_with k ≡ ok seal
        → length (seal nonce plaintext aad) ≡ length plaintext + 16

  -- Keys of the right size are taken.
  pub record Keyed : Type 0 where
    pub mac_keyed : (k : Str) → length k ≡ 32 → (mac : Str → Str) × (blake2s_128 k ≡ ok mac)
    pub seal_keyed :
        (k : Str) → length k ≡ 32 → (seal : Str → Str → Str → Str) × (seal_with k ≡ ok seal)

  -- What is sealed can be opened, and both sides of an exchange reach one secret.
  pub record Agrees : Type 0 where
    pub read_back : (k : PublicKey) → new_public_key (key_bytes k) ≡ ok k
    pub same_secret : (a b : PrivateKey) → ecdh a (public_key b) ≡ ecdh b (public_key a)
    pub opens :
        (k : Str) (seal : Str → Str → Str → Str)
        → seal_with k ≡ ok seal
        → (unseal : Str → Str → Str → Except Str) × (open_with k ≡ ok unseal)
          × ((nonce plaintext aad : Str)
              → unseal nonce (seal nonce plaintext aad) aad ≡ ok plaintext)
