-- ===== src/WireGuard/Initiation/Layout.antt =====
-- The layout of a handshake initiation, by offsets, as cmd/nodecheck/prober_wireguard_test.go reads
-- it: seven fields one after the other.
use tunnel_ops.Base.{
  ℕ, ◌-◌, Str, length, length-append, take-append, drop-append, ◌++◌, append_assoc, append-nil, [],
  ◌≡◌, refl, arith,
}
use tunnel_ops.WireGuard.Noise.{slice}

-- The part of a list between two others whose lengths are known.
slice_lem :
    (from to : ℕ) (all before part after : Str)
    → all ≡ before ++ (part ++ after)
    → length before ≡ from
    → length part ≡ to - from
    → slice from to all ≡ part
slice_lem from to all before part after e h k =
    rw (e, drop-append from before (part ++ after) h) (take-append (to - from) part after k)

module _ (header sender ephemeral enc_static enc_time mac1 mac2 : Str) where
  abbrev pub body : Str
  body = header ++ sender ++ ephemeral ++ enc_static ++ enc_time

  abbrev pub message : Str
  message = body ++ mac1 ++ mac2

  pub record IsLaidOut : Type 0 where
    pub header_size : length header ≡ 4
    pub sender_size : length sender ≡ 4
    pub ephemeral_size : length ephemeral ≡ 32
    pub static_size : length enc_static ≡ 48
    pub time_size : length enc_time ≡ 28
    pub mac1_size : length mac1 ≡ 16
    pub mac2_size : length mac2 ≡ 16

  module _ (sizes : IsLaidOut) where
    length_before_static : length (header ++ sender ++ ephemeral) ≡ 40
    length_before_static =
        omega (arith, length-append (header ++ sender) ephemeral, length-append header sender)

    length_before_time : length (header ++ sender ++ ephemeral ++ enc_static) ≡ 88
    length_before_time =
        omega
          (arith, length-append (header ++ sender ++ ephemeral) enc_static, length_before_static)

    pub length-body : length body ≡ 116
    length-body = omega (
      arith,
      length-append (header ++ sender ++ ephemeral ++ enc_static) enc_time,
      length_before_time,
    )

    pub length-message : length message ≡ 148
    length-message =
        omega (arith, length-append (body ++ mac1) mac2, length-append body mac1, length-body)

    pub at_header : slice 0 4 message ≡ header
    at_header =
        slice_lem 0 4 message [] header
          (sender ++ (ephemeral ++ (enc_static ++ (enc_time ++ (mac1 ++ mac2)))))
          (simp append_assoc) refl sizes.header_size

    pub at_sender : slice 4 8 message ≡ sender
    at_sender =
        slice_lem 4 8 message header sender
          (ephemeral ++ (enc_static ++ (enc_time ++ (mac1 ++ mac2)))) (simp append_assoc)
          sizes.header_size sizes.sender_size

    pub at_ephemeral : slice 8 40 message ≡ ephemeral
    at_ephemeral =
        slice_lem 8 40 message (header ++ sender) ephemeral
          (enc_static ++ (enc_time ++ (mac1 ++ mac2))) (simp append_assoc)
          (omega (arith, length-append header sender)) sizes.ephemeral_size

    pub at_static : slice 40 88 message ≡ enc_static
    at_static =
        slice_lem 40 88 message (header ++ sender ++ ephemeral) enc_static
          (enc_time ++ (mac1 ++ mac2)) (simp append_assoc) length_before_static sizes.static_size

    pub at_time : slice 88 116 message ≡ enc_time
    at_time =
        slice_lem 88 116 message (header ++ sender ++ ephemeral ++ enc_static) enc_time
          (mac1 ++ mac2) (simp append_assoc) length_before_time sizes.time_size

    pub at_body : slice 0 116 message ≡ body
    at_body = slice_lem 0 116 message [] body (mac1 ++ mac2) (simp append_assoc) refl length-body

    pub at_mac1 : slice 116 132 message ≡ mac1
    at_mac1 =
        slice_lem 116 132 message body mac1 mac2 (simp append_assoc) length-body sizes.mac1_size

    pub at_mac2 : slice 132 148 message ≡ mac2
    at_mac2 =
        slice_lem 132 148 message (body ++ mac1) mac2 [] (simp (append_assoc, append-nil))
          (omega (arith, length-append body mac1, length-body)) sizes.mac2_size
