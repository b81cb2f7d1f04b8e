-- ===== src/Http.antt =====
-- What the bridge reads of an http.Request. Header names are stored in canonical form, as the
-- server stores them; the query is the map of url.Values, its keys in the order in which a
-- `range` visits them.
use mathlib.Core.List.{reverse}
use pterodactyl_proxmox_back.Prelude.{
  ℕ, ◌+◌, ◌-◌, Bool, true, not, ◌&&◌, ◌||◌, Option, none, some, List, [], ◌∷◌, ◌++◌, map, leb, ◌==◌,
  if◌then◌else◌, Bytes, codes, all,
}
use pterodactyl_proxmox_back.Strings.{eq_bytes, has_prefix, contains}
use pterodactyl_proxmox_back.Strings.Utf8.{runes, chunks}

pub record Request : Type 0 where
  pub method : Bytes
  -- r.URL.Path, decoded
  pub path : Bytes
  pub host : Bytes
  -- r.URL.Host
  pub url_host : Bytes
  pub header : List (Bytes × Bytes)
  pub query : List (Bytes × List Bytes)

-- r.Header.Values of a canonical name
unfoldable pub header_values : List (Bytes × Bytes) → Bytes → List Bytes
unfolding eq_bytes
header_values [] name = []
header_values ((n, v) ∷ h) name =
    let rest = header_values h name in if eq_bytes n name then v ∷ rest else rest

abbrev pub first_or_empty : List Bytes → Bytes
first_or_empty [] = []
first_or_empty (v ∷ vs) = v

-- r.Header.Get of a canonical name
unfoldable pub header_get : Request → Bytes → Bytes
unfolding header_values
header_get r name = first_or_empty (header_values r.header name)

unfoldable pub query_values : List (Bytes × List Bytes) → Bytes → Option (List Bytes)
unfolding eq_bytes
query_values [] key = none
query_values ((k, vs) ∷ q) key = if eq_bytes k key then some vs else query_values q key

abbrev values_or_empty : Option (List Bytes) → Bytes
values_or_empty none = []
values_or_empty (some vs) = first_or_empty vs

-- url.Values.Get
unfoldable pub query_get : Request → Bytes → Bytes
unfolding query_values
query_get r key = values_or_empty (query_values r.query key)

is_token_byte : ℕ → Bool
is_token_byte c =
    (leb b'A' c && leb c b'Z')
    || (leb b'a' c && leb c b'z')
    || (leb b'0' c && leb c b'9')
    || contains (codes "!#$%&'*+-.^_`|~") (c ∷ [])

canonical_from : Bool → Bytes → Bytes
canonical_from upper [] = []
canonical_from upper (c ∷ s) =
    (if upper && leb b'a' c && leb c b'z'
      then c - 32
      else if not upper && leb b'A' c && leb c b'Z'
      then c + 32
      else c)
    ∷ canonical_from (c == b'-') s

-- textproto.CanonicalMIMEHeaderKey: a name with a byte that no token holds is left alone
unfoldable pub canonical_header_key : Bytes → Bytes
unfolding is_token_byte canonical_from contains has_prefix
canonical_header_key name = if all is_token_byte name then canonical_from true name else name

-- unicode.IsSpace
is_space : ℕ → Bool
is_space r =
    (leb 9 r && leb r 13)
    || r == 32
    || r == 0x85
    || r == 0xa0
    || r == 0x1680
    || (leb 0x2000 r && leb r 0x200a)
    || r == 0x2028
    || r == 0x2029
    || r == 0x202f
    || r == 0x205f
    || r == 0x3000

-- the runes with their bytes
drop_spaces : List (ℕ × Bytes) → List (ℕ × Bytes)
drop_spaces [] = []
drop_spaces ((r, b) ∷ cs) = let rest = drop_spaces cs in if is_space r then rest else (r, b) ∷ cs

bytes_of : List (ℕ × Bytes) → Bytes
bytes_of [] = []
bytes_of ((r, b) ∷ cs) = b ++ bytes_of cs

-- strings.TrimSpace
unfoldable pub trim_space : Bytes → Bytes
unfolding drop_spaces is_space bytes_of chunks
trim_space s = bytes_of (reverse (drop_spaces (reverse (drop_spaces (chunks s)))))

-- the runes that fold to ASCII letters are the capitals, U+017F and U+212A
fold_rune : ℕ → ℕ
fold_rune r =
    if leb b'A' r && leb r b'Z'
    then r + 32
    else if r == 0x17f
    then b's'
    else if r == 0x212a
    then b'k'
    else r

-- strings.EqualFold against a text in small ASCII letters
unfoldable pub equal_fold : Bytes → Bytes → Bool
unfolding fold_rune runes eq_bytes
equal_fold s small = eq_bytes (map fold_rune (runes s)) small
