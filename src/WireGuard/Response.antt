-- ===== src/WireGuard/Response.antt =====
-- cmd/nodecheck/prober_wireguard.go: `validateResponse` and `acceptAnonymous`. Both return an error's
-- text, or `none`.
use tunnel_ops.Base.{
  ℕ, ◌==◌, Str, codes, decimal, hexadecimal, padded, length, Bool, true, false, not, ◌&&◌, [], ◌∷◌,
  ◌++◌, Option, none, some, if◌then◌else◌, ◌≡◌, ◌≢◌, ◌↔◌, ◌⊎◌, inl, inr, refl, arith, Bool-cases,
}
use tunnel_ops.Base.Bytes.{from_little_endian}
use tunnel_ops.WireGuard.Noise.{slice}
use tunnel_ops.WireGuard.Initiation.{WgInitiation}

abbrev pub wg_msg_response : ℕ
wg_msg_response = 2

abbrev pub wg_msg_cookie_reply : ℕ
wg_msg_cookie_reply = 3

abbrev pub wg_response_size : ℕ
wg_response_size = 92

abbrev pub wg_cookie_reply_size : ℕ
wg_cookie_reply_size = 64

-- `%#08x`: eight digits at least, behind the prefix.
abbrev hex08 : ℕ → Str
hex08 n = codes "0x" ++ padded 8 (hexadecimal n)

-- The receiver index of a handshake response.
abbrev pub receiver_index : Str → ℕ
receiver_index reply = from_little_endian (slice 8 12 reply)

check_response : WgInitiation → Str → Option Str
check_response init reply =
    if not (length reply == wg_response_size)
    then some (
        codes "handshake response is "
        ++ decimal (length reply)
        ++ codes " bytes, want "
        ++ decimal wg_response_size)
    else if not (receiver_index reply == init.sender_index)
    then some (
        codes "handshake response is for session "
        ++ hex08 (receiver_index reply)
        ++ codes ", ours is "
        ++ hex08 init.sender_index)
    else none

check_cookie_reply : Str → Option Str
check_cookie_reply reply =
    if length reply == wg_cookie_reply_size
    then some (
        codes
          "cookie reply: the responder is under load and requires mac2, which this probe does not implement")
    else some (
        codes "malformed cookie reply: "
        ++ decimal (length reply)
        ++ codes " bytes, want "
        ++ decimal wg_cookie_reply_size)

unfoldable pub validate_response : WgInitiation → Str → Option Str
unfolding check_response check_cookie_reply
validate_response init [] = some (codes "empty datagram")
validate_response init (b ∷ bs) =
    if b == wg_msg_response
    then check_response init (b ∷ bs)
    else if b == wg_msg_cookie_reply
    then check_cookie_reply (b ∷ bs)
    else some (
        codes "not a WireGuard handshake response: message type "
        ++ decimal b
        ++ codes ", "
        ++ decimal (length (b ∷ bs))
        ++ codes " bytes")

-- The first byte of a datagram that is not empty; [] has none.
abbrev first_is : ℕ → Str → Bool
first_is n [] = false
first_is n (b ∷ bs) = b == n

is_cookie_reply : Str → Bool
is_cookie_reply reply = length reply == wg_cookie_reply_size && first_is wg_msg_cookie_reply reply

-- What `acceptAnonymous` makes of the stricter verdict.
relaxed : Option Str → Str → Option Str
unfolding is_cookie_reply
relaxed none reply = none
relaxed (some e) reply = if is_cookie_reply reply then none else some e

unfoldable pub accept_anonymous : WgInitiation → Str → Option Str
unfolding relaxed validate_response
accept_anonymous init reply = relaxed (validate_response init reply) reply

-- A handshake response of the right size to our own session.
abbrev pub Answers : WgInitiation → Str → Type 0
Answers init reply =
    (length reply ≡ 92)
    × ((bs : Str) × (reply ≡ 2 ∷ bs))
    × (receiver_index reply ≡ init.sender_index)

-- A cookie reply of the right size.
abbrev pub IsCookieReply : Str → Type 0
IsCookieReply reply = (length reply ≡ 64) × ((bs : Str) × (reply ≡ 3 ∷ bs))

check_response_iff :
    (init : WgInitiation) (reply : Str)
    → (check_response init reply ≡ none)
      ↔ ((length reply ≡ 92) × (receiver_index reply ≡ init.sender_index))
unfolding check_response
check_response_iff init reply = ground arith

check_cookie_reply_ne : (reply : Str) → check_cookie_reply reply ≢ none
unfolding check_cookie_reply
check_cookie_reply_ne reply = ground arith

validated :
    (init : WgInitiation) (reply : Str) → validate_response init reply ≡ none → Answers init reply
unfolding validate_response
validated init [] h = cc
validated init (b ∷ bs) h = elim (Bool-cases (b == 2)) [
  | inl two ↦
      let (size, session) = (check_response_iff init (b ∷ bs)).0 (ground arith) in
      (size, (bs, ground arith), session)
  | inr other ↦ absurd (ground (arith, check_cookie_reply_ne (b ∷ bs)))
]

answered :
    (init : WgInitiation) (reply bs : Str)
    → reply ≡ 2 ∷ bs
    → length reply ≡ 92
    → receiver_index reply ≡ init.sender_index
    → validate_response init reply ≡ none
unfolding validate_response
answered init [] bs e size session = cc
answered init (b ∷ bs') bs e size session =
    let two : b ≡ 2 = ground arith in
    rw (two, validate_response) ((check_response_iff init (b ∷ bs')).1 (size, session))

-- `validateResponse` takes exactly the handshake responses of the right size to our own session.
pub validate_response_iff :
    (init : WgInitiation) (reply : Str) → (validate_response init reply ≡ none) ↔ Answers init reply
validate_response_iff init reply =
    (validated init reply, λ a. answered init reply a.1.0 a.1.1 a.0 a.2)

is_cookie_reply_iff : (reply : Str) → (is_cookie_reply reply ≡ true) ↔ IsCookieReply reply
unfolding is_cookie_reply
is_cookie_reply_iff [] = (λ h. cc, λ h. absurd (omega (arith, h.0)))
is_cookie_reply_iff (b ∷ bs) =
    (λ h. (ground arith, (bs, ground arith)), λ h. ground (arith, h.0, h.1.1))

relaxed_iff :
    (o : Option Str) (reply : Str) → (relaxed o reply ≡ none) ↔ ((o ≡ none) ⊎ IsCookieReply reply)
unfolding relaxed
relaxed_iff none reply = (λ h. inl refl, λ h. refl)
relaxed_iff (some e) reply = elim (Bool-cases (is_cookie_reply reply)) [
  | inl yes_it_is ↦ rw yes_it_is (λ h. inr ((is_cookie_reply_iff reply).0 yes_it_is), λ h. refl)
  | inr not_so ↦ rw not_so (λ h. cc, refused not_so)
]
  where
    refused : is_cookie_reply reply ≡ false → (some e ≡ none) ⊎ IsCookieReply reply → some e ≡ none
    refused not_so (inl h) = h
    refused not_so (inr h) = absurd (ground (arith, (is_cookie_reply_iff reply).1 h))

-- `acceptAnonymous` takes those, and cookie replies of the right size, and nothing else.
pub accept_anonymous_iff :
    (init : WgInitiation) (reply : Str)
    → (accept_anonymous init reply ≡ none) ↔ (Answers init reply ⊎ IsCookieReply reply)
unfolding relaxed
accept_anonymous_iff init reply = (
  λ h. forth ((relaxed_iff (validate_response init reply) reply).0 (unfold accept_anonymous in h)),
  λ h. unfold accept_anonymous in (relaxed_iff (validate_response init reply) reply).1 (back h),
)
  where
    forth :
        (validate_response init reply ≡ none) ⊎ IsCookieReply reply
        → Answers init reply ⊎ IsCookieReply reply
    forth (inl h) = inl ((validate_response_iff init reply).0 h)
    forth (inr h) = inr h

    back :
        Answers init reply ⊎ IsCookieReply reply
        → (validate_response init reply ≡ none) ⊎ IsCookieReply reply
    back (inl h) = inl ((validate_response_iff init reply).1 h)
    back (inr h) = inr h
