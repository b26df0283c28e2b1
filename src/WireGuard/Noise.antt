-- ===== src/WireGuard/Noise.antt =====
-- cmd/nodecheck/prober_wireguard.go: the Noise primitives and the TAI64N stamp.
use tunnel_ops.Base.{
  ℕ, ◌+◌, ◌-◌, ◌/◌, ◌%◌, ◌^◌, Str, codes, take, drop, replicate, concat, List, [], ◌∷◌, ◌++◌,
  Except, ok, wrap, ◌>>=◌,
}
use tunnel_ops.Base.Bytes.{big_endian}
use tunnel_ops.WireGuard.Primitives.{Crypto}

abbrev pub wg_key_size : ℕ
wg_key_size = 32

-- `copy(out[:], s)` into a fresh array of n bytes.
abbrev pub copied : ℕ → Str → Str
copied n s = take n (s ++ replicate n 0)

-- `b[from:to]`
abbrev pub slice : ℕ → ℕ → Str → Str
slice from to b = take (to - from) (drop from b)

abbrev pub zero_nonce : Str
zero_nonce = replicate 12 0

module _ (c : Crypto) where
  open c use {blake2s_256, hmac_blake2s, seal_with}

  unfoldable pub wg_hash : List Str → Str
  wg_hash parts = copied 32 (blake2s_256 (concat parts))

  unfoldable pub wg_hmac : Str → Str → Str
  wg_hmac key text = copied 32 (hmac_blake2s key text)

  unfoldable pub wg_kdf1 : Str → Str → Str
  wg_kdf1 ck input = let temp = wg_hmac ck input in wg_hmac temp (1 ∷ [])

  unfoldable pub wg_kdf2 : Str → Str → Str × Str
  wg_kdf2 ck input =
      let temp = wg_hmac ck input in
      let k1 = wg_hmac temp (1 ∷ []) in (k1, wg_hmac temp (k1 ++ 2 ∷ []))

  unfoldable pub wg_seal : Str → Str → Str → Except Str
  wg_seal key plaintext aad = do
    seal ← wrap (codes "aead: ") (seal_with key)
    ok (seal zero_nonce plaintext aad)

-- Seconds of the Unix epoch, counted from 1 January of the year 1.
abbrev pub unix_epoch : ℕ
unix_epoch = 62135596800

-- `uint64(now.Unix())` of a time in nanoseconds since 1 January of the year 1.
abbrev pub unix_u64 : ℕ → ℕ
unix_u64 now = (now / 10 ^ 9 + (2 ^ 64 - unix_epoch)) % 2 ^ 64

unfoldable pub wg_tai64n : ℕ → Str
wg_tai64n now =
    big_endian 8 ((0x400000000000000a + unix_u64 now) % 2 ^ 64) ++ big_endian 4 (now % 10 ^ 9)
