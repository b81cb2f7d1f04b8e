-- ===== src/SigV4/Encode/RoundTrip.antt =====
-- URI-encoded text can be decoded, so that different texts are signed differently.
use pterodactyl_proxmox_back.Prelude.{
  ℕ, ◌+◌, ◌-◌, ◌*◌, ◌/◌, ◌%◌, ◌≤◌, ◌<◌, ◌≡◌, refl, ap, ◌≢◌, inl, inr, Bool, true, not, ◌&&◌, Option,
  none, some, [], ◌∷◌, ◌++◌, arith, leb, ◌==◌, if◌then◌else◌, Bool-cases, Bytes, All, All-append,
  IsByte,
}
use pterodactyl_proxmox_back.Strings.Hex.{hex_digit}
use pterodactyl_proxmox_back.SigV4.Encode.{is_unreserved, encode_byte, uri_encode}

-- percent-decoding, as a URI is read: RFC 3986, 2.1
unhex : ℕ → Option ℕ
unhex c =
    if leb b'0' c && leb c b'9'
    then some (c - b'0')
    else if leb b'A' c && leb c b'F'
    then some (c - b'A' + 10)
    else none

abbrev pair : Option ℕ → Option ℕ → Option ℕ
pair (some a) (some b) = some (a * 16 + b)
pair _ _ = none

abbrev cons_to : Option ℕ → Option Bytes → Option Bytes
cons_to (some a) (some s) = some (a ∷ s)
cons_to _ _ = none

unfoldable pub percent_decode : Bytes → Option Bytes
unfolding unhex
percent_decode [] = some []
percent_decode (c ∷ []) = if c == b'%' then none else some (c ∷ [])
percent_decode (c ∷ d ∷ []) = if c == b'%' then none else cons_to (some c) (percent_decode (d ∷ []))
percent_decode (c ∷ d ∷ e ∷ s) =
    let escaped = cons_to (pair (unhex d) (unhex e)) (percent_decode s) in
    let plain = cons_to (some c) (percent_decode (d ∷ e ∷ s)) in
    if c == b'%' then escaped else plain

decode_plain :
    (c : ℕ) (s : Bytes) → c ≢ b'%' → percent_decode (c ∷ s) ≡ cons_to (some c) (percent_decode s)
unfolding percent_decode
decode_plain c [] h = ground arith
decode_plain c (d ∷ []) h = ground arith
decode_plain c (d ∷ e ∷ s) h = ground arith

unhex-hex_digit : (n : ℕ) → n < 16 → unhex (hex_digit b'A' n) ≡ some n
unfolding unhex hex_digit
unhex-hex_digit n h = ground arith

decode_escaped :
    (b : ℕ) (s : Bytes)
    → IsByte b
    → percent_decode (b'%' ∷ hex_digit b'A' (b / 16) ∷ hex_digit b'A' (b % 16) ∷ s)
      ≡ cons_to (some b) (percent_decode s)
unfolding percent_decode
decode_escaped b s h =
    rw (unhex-hex_digit (b / 16) (omega arith), unhex-hex_digit (b % 16) (omega arith))
      (ap (λ n. cons_to (some n) (percent_decode s)) (omega arith))

unreserved-ne-percent : (b : ℕ) → is_unreserved b ≡ true → b ≢ b'%'
unfolding is_unreserved
unreserved-ne-percent b h = ground arith

decode-encode_byte :
    (slash : Bool) (b : ℕ) (s : Bytes)
    → IsByte b
    → percent_decode (encode_byte slash b ++ s) ≡ cons_to (some b) (percent_decode s)
unfolding encode_byte
decode-encode_byte slash b s h = elim (Bool-cases (is_unreserved b)) [
  | inl e ↦ rw e (decode_plain b s (unreserved-ne-percent b e))
  | inr e ↦ elim (Bool-cases (b == b'/' && not slash)) [
    | inl k ↦ rw (e, k) (decode_plain b s (ground arith))
    | inr k ↦ rw (e, k) (decode_escaped b s h)
  ]
]

-- Decoding percent escapes gives back the text that was URI-encoded, be slashes kept or escaped;
-- so no two paths, names or values are encoded alike.
pub percent_decode-uri_encode :
    (s : Bytes) (encode_slash : Bool)
    → All IsByte s
    → percent_decode (uri_encode s encode_slash) ≡ some s
unfolding uri_encode
percent_decode-uri_encode [] slash h = unfold percent_decode in refl
percent_decode-uri_encode (b ∷ s) slash h =
    rw (decode-encode_byte slash b (uri_encode s slash) h.0, percent_decode-uri_encode s slash h.1)

-- no space, no control character, and none of the marks between parameters
abbrev pub Plain : ℕ → Type 0
Plain c = (b'!' ≤ c) × (c ≢ b'&') × (c ≢ b'=')

hex_digit-Plain : (n : ℕ) → n < 16 → Plain (hex_digit b'A' n)
unfolding hex_digit
hex_digit-Plain n h = ground arith

encode_byte-Plain : (slash : Bool) (b : ℕ) → IsByte b → All Plain (encode_byte slash b)
unfolding encode_byte is_unreserved
encode_byte-Plain slash b h = ground (arith, hex_digit-Plain (b / 16), hex_digit-Plain (b % 16))

pub uri_encode-Plain : (s : Bytes) (slash : Bool) → All IsByte s → All Plain (uri_encode s slash)
unfolding uri_encode
uri_encode-Plain [] slash h = tt
uri_encode-Plain (b ∷ s) slash h =
    All-append Plain (encode_byte slash b) (uri_encode s slash) (encode_byte-Plain slash b h.0)
      (uri_encode-Plain s slash h.1)
