-- ===== src/WireGuard/Timestamp.antt =====
-- The TAI64N stamps of cmd/nodecheck/prober_wireguard.go, by which a responder refuses replays.
use tunnel_ops.Base.{
  ℕ, zero, suc, ◌+◌, ◌/◌, ◌%◌, ◌^◌, ◌<◌, Str, str_lt, length, take, drop, take-append, drop-append,
  true, [], ◌∷◌, ◌++◌, ◌≡◌, arith, sym, ◌∙◌,
}
use tunnel_ops.Base.Bytes.{
  big_endian, from_big_endian, length-big_endian, from_big_endian-big_endian,
}
use native.Mathlib.Nat.{pow-suc}
use native.Mathlib.Decide.{dec_lt}
use tunnel_ops.WireGuard.Noise.{unix_epoch, unix_u64, wg_tai64n}

str_lt-append_left :
    (xs ys us vs : Str)
    → length xs ≡ length ys
    → str_lt xs ys ≡ true
    → str_lt (xs ++ us) (ys ++ vs) ≡ true
unfolding str_lt
str_lt-append_left [] [] us vs h k = cc
str_lt-append_left [] (y ∷ ys) us vs h k = absurd (omega arith)
str_lt-append_left (x ∷ xs) [] us vs h k = absurd (omega arith)
str_lt-append_left (x ∷ xs) (y ∷ ys) us vs h k = ground (arith, str_lt-append_left xs ys us vs)

str_lt-append_same : (xs us vs : Str) → str_lt us vs ≡ true → str_lt (xs ++ us) (xs ++ vs) ≡ true
unfolding str_lt
str_lt-append_same [] us vs h = h
str_lt-append_same (x ∷ xs) us vs h = ground (arith, str_lt-append_same xs us vs h)

str_lt-one : (a b : ℕ) → a < b → str_lt (a ∷ []) (b ∷ []) ≡ true
unfolding str_lt
str_lt-one a b h = ground arith

-- Big-endian words are ordered as their numbers.
big_endian-lt : (n a b : ℕ) → a < b → b < 256 ^ n → str_lt (big_endian n a) (big_endian n b) ≡ true
unfolding big_endian
big_endian-lt zero a b h k = absurd (omega arith)
big_endian-lt (suc n) a b h k = elim (dec_lt (a / 256) (b / 256)) [
  | yes high ↦
      str_lt-append_left _ _ _ _
        (length-big_endian n (a / 256) ∙ sym (length-big_endian n (b / 256)))
        (big_endian-lt n (a / 256) (b / 256) high (omega (arith, pow-suc 256 n)))
  | no low ↦
      let same : b / 256 ≡ a / 256 = omega arith in
      rw same (str_lt-append_same (big_endian n (a / 256)) _ _ (str_lt-one _ _ (omega arith)))
]

-- The seconds of a stamp, as a number.
abbrev seconds_of : ℕ → ℕ
seconds_of now = (0x400000000000000a + unix_u64 now) % 2 ^ 64

seconds_of_lem :
    (now : ℕ) → now / 10 ^ 9 < 2 ^ 62 → seconds_of now + unix_epoch ≡ 2 ^ 62 + 10 + now / 10 ^ 9
seconds_of_lem now h = omega arith

-- A stamp holds the time: its first eight bytes are the seconds since 1970, 2 ^ 62 and ten, and its
-- last four the nanoseconds of the second, for any time before 2 ^ 62 seconds.
pub wg_tai64n-from_big_endian :
    (now : ℕ)
    → now / 10 ^ 9 < 2 ^ 62
    → (from_big_endian (take 8 (wg_tai64n now)) + unix_epoch ≡ 2 ^ 62 + 10 + now / 10 ^ 9)
      × (from_big_endian (drop 8 (wg_tai64n now)) ≡ now % 10 ^ 9)
unfolding wg_tai64n
wg_tai64n-from_big_endian now h = (
  rw
      (
        take-append 8 (big_endian 8 (seconds_of now)) (big_endian 4 (now % 10 ^ 9))
            (length-big_endian 8 _),
        from_big_endian-big_endian 8 (seconds_of now) (omega arith),
      )
      (seconds_of_lem now h),
  rw (
    drop-append 8 (big_endian 8 (seconds_of now)) (big_endian 4 (now % 10 ^ 9))
        (length-big_endian 8 _),
    from_big_endian-big_endian 4 (now % 10 ^ 9) (omega arith),
  ),
)

-- A later stamp is greater, byte by byte.
pub wg_tai64n-lt :
    (now later : ℕ)
    → now < later
    → later / 10 ^ 9 < 2 ^ 62
    → str_lt (wg_tai64n now) (wg_tai64n later) ≡ true
unfolding wg_tai64n
wg_tai64n-lt now later h k = elim (dec_lt (now / 10 ^ 9) (later / 10 ^ 9)) [
  | yes earlier ↦ str_lt-append_left _ _ _ _ (length-big_endian 8 _ ∙ sym (length-big_endian 8 _)) (
      big_endian-lt 8 (seconds_of now) (seconds_of later)
        (omega (arith, seconds_of_lem now (omega arith), seconds_of_lem later k)) (omega arith))
  | no same_second ↦
      let same : seconds_of later ≡ seconds_of now = omega arith in
      rw same (
        str_lt-append_same (big_endian 8 (seconds_of now)) _ _
          (big_endian-lt 4 (now % 10 ^ 9) (later % 10 ^ 9) (omega arith) (omega arith)))
]
