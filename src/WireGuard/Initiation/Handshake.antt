-- ===== src/WireGuard/Initiation/Handshake.antt =====
-- The run of `buildWGInitiation` of cmd/nodecheck/prober_wireguard.go and of the responder of its
-- test, step by step, on the values of one handshake.
use tunnel_ops.Base.{
  str_eq_refl, ℕ, Str, replicate, length, length-append, take-append, List, [], ◌∷◌, ok, ◌≡◌, refl,
  ◌∙◌, arith, concat,
}
use tunnel_ops.Base.Bytes.{
  little_endian, from_little_endian, length-little_endian, length-big_endian,
}
use tunnel_ops.WireGuard.Primitives.{Crypto, Sizes, Agrees}
use tunnel_ops.WireGuard.Noise.{
  copied, wg_hash, wg_hmac, wg_kdf1, wg_kdf2, wg_seal, wg_tai64n, zero_nonce,
}
use tunnel_ops.WireGuard.Initiation.{
  wg_construction, wg_identifier, wg_label_mac1, Random, build_wg_initiation, finished,
}
use tunnel_ops.WireGuard.Initiation.Layout.{
  body, message, IsLaidOut, length-message, at_ephemeral, at_static, at_time,
}
use tunnel_ops.WireGuard.Responder.{
  wg_test_hash, wg_test_kdf, output, wg_test_open, consume_initiation,
}

pub copied_lem : (n : ℕ) (s : Str) → length s ≡ n → copied n s ≡ s
copied_lem n s h = take-append n s (replicate n 0) h

pub length-wg_tai64n : (now : ℕ) → length (wg_tai64n now) ≡ 12
unfolding wg_tai64n
length-wg_tai64n now =
    omega (arith, length-append {0} _ _, length-big_endian 8 _, length-big_endian 4 _)

module _ (c : Crypto) (sizes : Sizes c) where
  open c use {
    PublicKey, PrivateKey, public_key, key_bytes, ecdh, blake2s_256, hmac_blake2s, seal_with,
  }

  wg_hash_lem : (parts : List Str) → wg_hash c parts ≡ wg_test_hash c parts
  unfolding wg_hash wg_test_hash
  wg_hash_lem parts = copied_lem 32 _ (sizes.hash_size (concat parts))

  wg_hmac_lem : (k s : Str) → wg_hmac c k s ≡ hmac_blake2s k s
  unfolding wg_hmac
  wg_hmac_lem k s = copied_lem 32 _ (sizes.hmac_size k s)

  wg_kdf1_lem : (ck input : Str) → wg_kdf1 c ck input ≡ output 0 (wg_test_kdf c ck input 1)
  unfolding wg_kdf1 wg_test_kdf
  wg_kdf1_lem ck input = simp wg_hmac_lem

  wg_kdf2_lem :
      (ck input : Str)
      → wg_kdf2 c ck input
        ≡ (output 0 (wg_test_kdf c ck input 2), output 1 (wg_test_kdf c ck input 2))
  unfolding wg_kdf2 wg_test_kdf
  wg_kdf2_lem ck input = simp wg_hmac_lem

  wg_seal_lem :
      (key plaintext aad : Str) (seal : Str → Str → Str → Str)
      → seal_with key ≡ ok seal
      → wg_seal c key plaintext aad ≡ ok (seal zero_nonce plaintext aad)
  unfolding wg_seal
  wg_seal_lem key plaintext aad seal e = rw e

  finished_lem :
      (packet : Str) (i : ℕ)
      → length packet ≡ 148
      → finished c packet i ≡ ok (record { packet = packet; sender_index = i })
  unfolding finished
  finished_lem packet i h = rw h

-- The derived keys: those for the static key and those for the timestamp.
module _ (c : Crypto) where
  abbrev pub ck₀ : Str
  ck₀ = wg_test_hash c (wg_construction ∷ [])

  abbrev pub static_keys : Str → Str → List Str
  static_keys eph_pub dh = wg_test_kdf c (output 0 (wg_test_kdf c ck₀ eph_pub 1)) dh 2

  abbrev pub time_keys : Str → Str → Str → List Str
  time_keys eph_pub dh dh' = wg_test_kdf c (output 0 (static_keys eph_pub dh)) dh' 2

  pub second_key_size :
      Sizes c → (ck input : Str) → length (output 1 (wg_test_kdf c ck input 2)) ≡ 32
  unfolding wg_test_kdf
  second_key_size sizes ck input = sizes.hmac_size _ _

-- The values of the handshake, in the responder's terms: its key pair, the initiator's, the two
-- shared secrets and the ciphers that come of the derived keys.
module _ (c : Crypto) (responder static eph : Crypto.PrivateKey c) (now : ℕ) (idx dh dh' : Str)
    (seal seal' : Str → Str → Str → Str) (mac : Str → Str) where
  open c use {PublicKey, PrivateKey, public_key, key_bytes, ecdh, seal_with}

  abbrev pub pub_bytes : PrivateKey → Str
  pub_bytes k = key_bytes (public_key k)

  abbrev pub h₁ : Str
  h₁ = wg_test_hash c (
      wg_test_hash c (wg_test_hash c (ck₀ c ∷ wg_identifier ∷ []) ∷ pub_bytes responder ∷ [])
      ∷ pub_bytes eph
      ∷ [])

  abbrev pub keys : List Str
  keys = static_keys c (pub_bytes eph) dh

  abbrev pub keys' : List Str
  keys' = time_keys c (pub_bytes eph) dh dh'

  abbrev pub enc_static : Str
  enc_static = seal zero_nonce (pub_bytes static) h₁

  abbrev pub enc_time : Str
  enc_time = seal' zero_nonce (wg_tai64n now) (wg_test_hash c (h₁ ∷ enc_static ∷ []))

  abbrev pub sender : ℕ
  sender = from_little_endian (copied 4 idx)

  abbrev pub head : Str
  head = 1 ∷ 0 ∷ 0 ∷ 0 ∷ []

  abbrev pub mac1 : Str
  mac1 = mac (body head (little_endian 4 sender) (pub_bytes eph) enc_static enc_time [] [])

  abbrev pub whole : Str
  whole =
      message head (little_endian 4 sender) (pub_bytes eph) enc_static enc_time mac1
        (replicate 16 0)

  module _ (sizes : Sizes c) (random : Random c) (e : random.ephemeral ≡ ok eph)
      (e₁ : random.index ≡ ok idx) (e₂ : ecdh eph (public_key responder) ≡ ok dh)
      (e₃ : seal_with (output 1 keys) ≡ ok seal) (e₄ : ecdh static (public_key responder) ≡ ok dh')
      (e₅ : seal_with (output 1 keys') ≡ ok seal')
      (e₆ : c.blake2s_128 (wg_test_hash c (wg_label_mac1 ∷ pub_bytes responder ∷ []))
        ≡ ok mac) where
    length-enc_static : length enc_static ≡ 48
    length-enc_static = omega (
      arith,
      sizes.seal_size _ seal zero_nonce (pub_bytes static) h₁ e₃,
      sizes.key_size (public_key static),
    )

    length-enc_time : length enc_time ≡ 28
    length-enc_time =
        omega (arith, sizes.seal_size _ seal' zero_nonce (wg_tai64n now) _ e₅, length-wg_tai64n now)

    pub laid_out :
        IsLaidOut head
          (little_endian 4 sender)
          (pub_bytes eph)
          enc_static
          enc_time
          mac1
          (replicate 16 0)
    laid_out = record {
      header_size = refl;
      sender_size = length-little_endian 4 sender;
      ephemeral_size = sizes.key_size (public_key eph);
      static_size = length-enc_static;
      time_size = length-enc_time;
      mac1_size = sizes.mac_size _ mac _ e₆;
      mac2_size = refl;
    }

    pub length-whole : length whole ≡ 148
    length-whole = length-message _ _ _ _ _ _ _ laid_out

    pub built :
        build_wg_initiation c (public_key responder) static now random
        ≡ ok (record { packet = whole; sender_index = sender })
    unfolding build_wg_initiation
    built =
        simp (wg_hash_lem c sizes, wg_kdf1_lem c sizes, wg_kdf2_lem c sizes, e, e₁, e₂, e₄)
          (rw (wg_seal_lem c sizes _ _ _ seal e₃) (
            rw (wg_seal_lem c sizes _ _ _ seal' e₅)
              (rw e₆ (finished_lem c sizes whole sender length-whole))))

    test_open :
        (agrees : Agrees c) (key plaintext aad : Str) (seal₀ : Str → Str → Str → Str)
        → seal_with key ≡ ok seal₀
        → wg_test_open c key (seal₀ zero_nonce plaintext aad) aad ≡ ok plaintext
    unfolding wg_test_open
    test_open agrees key plaintext aad seal₀ e =
        let (unseal, opened, back) = agrees.opens key seal₀ e in
        rw opened (back zero_nonce plaintext aad)

    pub consumed :
        Agrees c → consume_initiation c responder whole ≡ ok (pub_bytes static, wg_tai64n now)
    unfolding consume_initiation
    consumed agrees =
        let secret : ecdh responder (public_key eph) ≡ ok dh =
          agrees.same_secret responder eph ∙ e₂ in
        let secret' : ecdh responder (public_key static) ≡ ok dh' =
          agrees.same_secret responder static ∙ e₄ in
        simp
          (
            length-whole,
            str_eq_refl,
            at_ephemeral _ _ _ _ _ _ _ laid_out,
            at_static _ _ _ _ _ _ _ laid_out,
            at_time _ _ _ _ _ _ _ laid_out,
            agrees.read_back,
            secret,
          )
          (rw (test_open agrees _ _ _ seal e₃)
            (rw (agrees.read_back, secret') (rw (test_open agrees _ _ _ seal' e₅))))
