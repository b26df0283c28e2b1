-- ===== src/WireGuard/Initiation/Accepted.antt =====
-- What `buildWGInitiation` of cmd/nodecheck/prober_wireguard.go sends, and that a responder which
-- follows the protocol accepts it.
use tunnel_ops.Base.{ℕ, ◌<◌, ◌^◌, Str, length, replicate, All, ok, [], ◌∷◌, ◌≡◌, refl, ◌∙◌, sym, ap}
use tunnel_ops.Base.Bytes.{
  from_little_endian, little_endian, from_little_endian-little_endian, from_little_endian-lt,
}
use tunnel_ops.WireGuard.Primitives.{Crypto, Sizes, Keyed, Agrees}
use tunnel_ops.WireGuard.Noise.{copied, slice, wg_tai64n}
use tunnel_ops.WireGuard.Initiation.{wg_label_mac1, WgInitiation, Random, build_wg_initiation}
use tunnel_ops.WireGuard.Initiation.Layout.{at_sender, at_body, at_mac1, at_mac2}
use tunnel_ops.WireGuard.Initiation.Handshake.{
  static_keys, time_keys, second_key_size, whole, built, consumed, laid_out, length-whole,
  copied_lem,
}
use tunnel_ops.WireGuard.Responder.{wg_test_hash, output, consume_initiation}

-- The calls that can fail, answered: the two keys' secrets, the ephemeral key and the random index.
module _ (c : Crypto) (sizes : Sizes c) (keyed : Keyed c) (agrees : Agrees c)
    (responder static eph : Crypto.PrivateKey c) (now : ℕ) (idx dh dh' : Str) (random : Random c)
    (e : random.ephemeral ≡ ok eph) (e₁ : random.index ≡ ok idx)
    (e₂ : Crypto.ecdh c eph (Crypto.public_key c responder) ≡ ok dh)
    (e₄ : Crypto.ecdh c static (Crypto.public_key c responder) ≡ ok dh') where
  open c use {public_key, key_bytes, blake2s_128}

  mac1_key_size :
      length (wg_test_hash c (wg_label_mac1 ∷ key_bytes (public_key responder) ∷ [])) ≡ 32
  unfolding wg_test_hash
  mac1_key_size = sizes.hash_size _

  -- The message, with all that is known of it.
  sent :
      (msg : WgInitiation) × (mac : Str → Str) × (build_wg_initiation c
          (public_key responder)
          static
          now
          random
        ≡ ok msg)
      × (length msg.packet ≡ 148)
      × (consume_initiation c responder msg.packet
          ≡ ok (key_bytes (public_key static), wg_tai64n now))
      × (blake2s_128 (wg_test_hash c (wg_label_mac1 ∷ key_bytes (public_key responder) ∷ []))
          ≡ ok mac)
      × (slice 116 132 msg.packet ≡ mac (slice 0 116 msg.packet))
      × (slice 132 148 msg.packet ≡ replicate 16 0)
      × (slice 4 8 msg.packet ≡ little_endian 4 msg.sender_index)
      × (msg.sender_index ≡ from_little_endian (copied 4 idx))
  sent =
      let eph_pub = key_bytes (public_key eph) in
      let (seal, e₃) =
        keyed.seal_keyed (output 1 (static_keys c eph_pub dh)) (second_key_size c sizes _ dh) in
      let (seal', e₅) =
        keyed.seal_keyed (output 1 (time_keys c eph_pub dh dh')) (second_key_size c sizes _ dh') in
      let (mac, e₆) = keyed.mac_keyed _ mac1_key_size in
      let layout =
        laid_out c responder static eph now idx dh dh' seal seal' mac sizes random e e₁ e₂ e₃ e₄ e₅
          e₆ in
      (
        record {
          packet = whole c responder static eph now idx dh dh' seal seal' mac;
          sender_index = from_little_endian (copied 4 idx);
        },
        mac,
        built c responder static eph now idx dh dh' seal seal' mac sizes random e e₁ e₂ e₃ e₄ e₅ e₆,
        length-whole c responder static eph now idx dh dh' seal seal' mac sizes random e e₁ e₂ e₃ e₄
            e₅ e₆,
        consumed c responder static eph now idx dh dh' seal seal' mac sizes random e e₁ e₂ e₃ e₄ e₅
            e₆ agrees,
        e₆,
        at_mac1 _ _ _ _ _ _ _ layout ∙ ap mac (sym (at_body _ _ _ _ _ _ _ layout)),
        at_mac2 _ _ _ _ _ _ _ layout,
        at_sender _ _ _ _ _ _ _ layout,
        refl,
      )

  -- Where keys, digests and sealed messages have their documented sizes, keys of the right size are
  -- taken, what is sealed can be opened, both sides reach one secret, and the calls for the random
  -- values and the secrets succeed: the message is built, it has the size of an initiation, and the
  -- responder reads off it the initiator's static public key and the stamp of the time.
  pub initiation_accepted :
      (msg : WgInitiation) × (build_wg_initiation c (public_key responder) static now random
        ≡ ok msg)
      × (length msg.packet ≡ 148)
      × (consume_initiation c responder msg.packet
          ≡ ok (key_bytes (public_key static), wg_tai64n now))
  initiation_accepted = (sent.0, sent.2, sent.3, sent.4)

  -- Under the same conditions, with a random index of four bytes: mac1 is the keyed digest, under
  -- the responder's public key, of all that stands before it; mac2 is zero; and the bytes at the
  -- sender's offset are the index that is kept to recognise the answer.
  pub initiation_macs :
      length idx ≡ 4
      → All (λ b. b < 256) idx
      → (msg : WgInitiation) × (mac : Str → Str) × (build_wg_initiation c
            (public_key responder)
            static
            now
            random
          ≡ ok msg)
        × (blake2s_128 (wg_test_hash c (wg_label_mac1 ∷ key_bytes (public_key responder) ∷ []))
            ≡ ok mac)
        × (slice 116 132 msg.packet ≡ mac (slice 0 116 msg.packet))
        × (slice 132 148 msg.packet ≡ replicate 16 0)
        × (from_little_endian (slice 4 8 msg.packet) ≡ msg.sender_index)
  initiation_macs four bytes =
      let (msg, mac, b, l, a, m, m1, m2, s, i) = sent in
      let small : msg.sender_index < 256 ^ 4 =
        rw (i, copied_lem 4 idx four) (rw four at (from_little_endian-lt idx bytes)) in
      (
        msg,
        mac,
        b,
        m,
        m1,
        m2,
        ap from_little_endian s ∙ from_little_endian-little_endian 4 msg.sender_index small,
      )
