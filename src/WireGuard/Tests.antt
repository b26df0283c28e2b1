-- ===== src/WireGuard/Tests.antt =====
-- The WireGuard prober's theorems at concrete handshakes, with a stand-in for the cryptography: keys
-- are numbers, a shared secret is their product, and sealing appends sixteen zeroes.
use native.Mathlib.Nat.{mul_comm}
use tunnel_ops.Base.{
  ℕ, ◌+◌, ◌-◌, ◌*◌, Str, codes, str_lt, length, length-append, take, take-append, replicate, true,
  [], ◌∷◌, ◌++◌, none, Except, ok, ◌≡◌, refl, ap, ◌↔◌, arith,
}
use tunnel_ops.Base.Int.{pos}
use tunnel_ops.Base.Bytes.{from_little_endian}
use tunnel_ops.WireGuard.Primitives.{Crypto, Sizes, Keyed, Agrees}
use tunnel_ops.WireGuard.Noise.{slice, wg_tai64n}
use tunnel_ops.WireGuard.Initiation.{WgInitiation, Random, build_wg_initiation, wg_label_mac1}
use tunnel_ops.WireGuard.Initiation.Accepted.{initiation_accepted, initiation_macs}
use tunnel_ops.WireGuard.Responder.{consume_initiation, wg_test_hash}
use tunnel_ops.WireGuard.Response.{validate_response, Answers, validate_response_iff}
use tunnel_ops.WireGuard.Timestamp.{wg_tai64n-lt}
use tunnel_ops.WireGuard.{WgParams, WgConfig, Setting, parse_wg_params}
use tunnel_ops.WireGuard.Laws.{Configures, parse_wg_params_iff}

abbrev first_byte : Str → ℕ
first_byte [] = 0
first_byte (b ∷ bs) = b

-- 32 bytes, of which the first is given.
abbrev wide : ℕ → Str
wide n = n ∷ replicate 31 0

abbrev append_tag : Str → Str → Str → Str
append_tag nonce plaintext aad = plaintext ++ replicate 16 0

abbrev strip_tag : Str → Str → Str → Except Str
strip_tag nonce ciphertext aad = ok (take (length ciphertext - 16) ciphertext)

abbrev zero_mac : Str → Str
zero_mac s = replicate 16 0

abbrev stand_in : Crypto
stand_in = record {
  PublicKey = ℕ;
  PrivateKey = ℕ;
  new_public_key = λ s. ok (first_byte s);
  new_private_key = λ s. ok (first_byte s);
  public_key = λ k. k;
  key_bytes = wide;
  ecdh = λ a b. ok (wide (a * b));
  blake2s_256 = λ s. wide (length s);
  blake2s_128 = λ k. ok zero_mac;
  hmac_blake2s = λ k s. wide (length k + length s);
  seal_with = λ k. ok append_tag;
  open_with = λ k. ok strip_tag;
}

sizes : Sizes stand_in
sizes = record {
  key_size = λ k. refl;
  hash_size = λ s. refl;
  hmac_size = λ k s. refl;
  mac_size = λ k mac s e. let same : mac ≡ zero_mac = cc in rw same refl;
  seal_size = λ k seal nonce plaintext aad e.
      let same : seal ≡ append_tag = cc in rw same (length-append plaintext (replicate 16 0));
}

keyed : Keyed stand_in
keyed = record { mac_keyed = λ k h. (zero_mac, refl); seal_keyed = λ k h. (append_tag, refl) }

strip-append : (p : Str) → take (length (p ++ replicate 16 0) - 16) (p ++ replicate 16 0) ≡ p
strip-append p =
    take-append (length (p ++ replicate 16 0) - 16) p (replicate 16 0)
      (omega (arith, length-append p (replicate 16 0)))

agrees : Agrees stand_in
agrees = record {
  read_back = λ k. refl;
  same_secret = λ a b. ap (λ n. ok (wide n)) (mul_comm a b);
  opens = λ k seal e. (
    strip_tag,
    refl,
    λ nonce plaintext aad.
        let same : seal ≡ append_tag = cc in rw same (ap ok (strip-append plaintext)),
  );
}

abbrev random : Random stand_in
random = record { ephemeral = ok 5; index = ok (1 ∷ 2 ∷ 3 ∷ 4 ∷ []) }

-- The responder's key is 3 and the initiator's 7.
abbrev at_time : ℕ
at_time = 63000000000000000123

initiation_accepted_example :
    (msg : WgInitiation) × (build_wg_initiation stand_in 3 7 at_time random ≡ ok msg)
    × (length msg.packet ≡ 148)
    × (consume_initiation stand_in 3 msg.packet ≡ ok (wide 7, wg_tai64n at_time))
initiation_accepted_example =
    initiation_accepted stand_in sizes keyed agrees 3 7 5 at_time (1 ∷ 2 ∷ 3 ∷ 4 ∷ []) (wide 15)
      (wide 21) random refl refl refl refl

initiation_macs_example :
    (msg : WgInitiation) × (mac : Str → Str) × (build_wg_initiation stand_in 3 7 at_time random
      ≡ ok msg)
    × (stand_in.blake2s_128 (wg_test_hash stand_in (wg_label_mac1 ∷ wide 3 ∷ [])) ≡ ok mac)
    × (slice 116 132 msg.packet ≡ mac (slice 0 116 msg.packet))
    × (slice 132 148 msg.packet ≡ replicate 16 0)
    × (from_little_endian (slice 4 8 msg.packet) ≡ msg.sender_index)
initiation_macs_example =
    initiation_macs stand_in sizes keyed agrees 3 7 5 at_time (1 ∷ 2 ∷ 3 ∷ 4 ∷ []) (wide 15)
      (wide 21) random refl refl refl refl refl
      (omega arith, (omega arith, (omega arith, (omega arith, tt))))

abbrev sent : WgInitiation
sent = record { packet = []; sender_index = 513 }

-- A response to session 513.
abbrev reply : Str
reply = 2 ∷ replicate 7 0 ++ 1 ∷ 2 ∷ 0 ∷ 0 ∷ replicate 80 0

validate_response_iff_example : (validate_response sent reply ≡ none) ↔ Answers sent reply
validate_response_iff_example = validate_response_iff sent reply

abbrev cookie : Str
cookie = 3 ∷ replicate 63 0

wg_tai64n-lt_example : str_lt (wg_tai64n at_time) (wg_tai64n (at_time + 1)) ≡ true
wg_tai64n-lt_example = wg_tai64n-lt at_time (at_time + 1) (omega arith) (omega arith)

abbrev params : WgParams
params = record { public_key = codes "key"; attempts = pos 2; allow_anonymous = true }

abbrev setting : Setting
setting = record {
  crypto = stand_in;
  decode = λ raw. ok params;
  base64 = λ s. ok (wide 3);
  private_key_env = [];
}

abbrev raw : Str
raw = codes "{\"public_key\":\"key\",\"attempts\":2,\"allow_anonymous\":true}"

abbrev config : WgConfig ℕ
config = record { peer = 3; attempts = 2; anonymous = true }

parse_wg_params_iff_example :
    (parse_wg_params setting raw ≡ ok config) ↔ Configures setting raw config
parse_wg_params_iff_example = parse_wg_params_iff setting raw config
