-- ===== src/SigV4/Encode.antt =====
-- internal/sigv4/canonical.go: isUnreserved, uriEncode and canonicalURI.
pub mod RoundTrip
use pterodactyl_proxmox_back.Prelude.{
  ℕ, ◌/◌, ◌%◌, Bool, false, not, ◌&&◌, ◌||◌, [], ◌∷◌, ◌++◌, leb, ◌==◌, if◌then◌else◌, Bytes,
}
use pterodactyl_proxmox_back.Strings.Hex.{hex_digit}

unfoldable pub is_unreserved : ℕ → Bool
is_unreserved b =
    (leb b'A' b && leb b b'Z')
    || (leb b'a' b && leb b b'z')
    || (leb b'0' b && leb b b'9')
    || b == b'-'
    || b == b'_'
    || b == b'.'
    || b == b'~'

-- what the loop writes for one byte; `%02X` of a byte is two digits
unfoldable pub encode_byte : Bool → ℕ → Bytes
unfolding is_unreserved hex_digit
encode_byte encode_slash b =
    if is_unreserved b
    then b ∷ []
    else if b == b'/' && not encode_slash
    then b ∷ []
    else b'%' ∷ hex_digit b'A' (b / 16) ∷ hex_digit b'A' (b % 16) ∷ []

unfoldable pub uri_encode : Bytes → Bool → Bytes
unfolding encode_byte
uri_encode [] encode_slash = []
uri_encode (b ∷ s) encode_slash = encode_byte encode_slash b ++ uri_encode s encode_slash

unfoldable pub canonical_uri : Bytes → Bytes
unfolding uri_encode
canonical_uri [] = b'/' ∷ []
canonical_uri (c ∷ path) = uri_encode (c ∷ path) false
