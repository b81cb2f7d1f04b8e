-- ===== src/Strings/Utf8.antt =====
-- `for _, r := range s` and `WriteRune`: the runes that Go reads from a string, an invalid byte
-- being read as U+FFFD, and their encoding.
use pterodactyl_proxmox_back.Prelude.{
  ℕ, zero, suc, ◌+◌, ◌*◌, ◌/◌, ◌%◌, ◌<◌, ◌≡◌, refl, Bool, false, ◌&&◌, ◌||◌, Option, none, some,
  List, [], ◌∷◌, ltb, leb, ◌==◌, if◌then◌else◌, lt→ltb, Bytes, take, All,
}

abbrev pub rune_error : ℕ
rune_error = 0xfffd

abbrev within : ℕ → ℕ → Option ℕ → Bool
within lo hi none = false
within lo hi (some b) = leb lo b && leb b hi

abbrev get_elem? : ℕ → Bytes → Option ℕ
get_elem? i [] = none
get_elem? zero (c ∷ s) = some c
get_elem? (suc i) (c ∷ s) = get_elem? i s

abbrev low : Option ℕ → ℕ
low none = 0
low (some b) = b % 64

-- the least and the greatest second byte that may follow a first byte of three or four
abbrev second_lo : ℕ → ℕ
second_lo c = if c == 0xe0 then 0xa0 else if c == 0xf0 then 0x90 else 0x80

abbrev second_hi : ℕ → ℕ
second_hi c = if c == 0xed then 0x9f else if c == 0xf4 then 0x8f else 0xbf

-- utf8.DecodeRuneInString at first byte `c`, with the number of bytes read behind `c`
unfoldable pub decode_rune : ℕ → Bytes → ℕ × ℕ
decode_rune c s =
    let b1 = get_elem? 0 s in
    let b2 = get_elem? 1 s in
    let b3 = get_elem? 2 s in
    if ltb c 0x80
    then (c, 0)
    else if leb 0xc2 c && leb c 0xdf && within 0x80 0xbf b1
    then ((c % 32) * 64 + low b1, 1)
    else if leb 0xe0 c && leb c 0xef && within (second_lo c) (second_hi c) b1 && within 0x80 0xbf b2
    then ((c % 16) * 4096 + low b1 * 64 + low b2, 2)
    else if leb 0xf0 c
        && leb c 0xf4
        && within (second_lo c) (second_hi c) b1
        && within 0x80 0xbf b2
        && within 0x80 0xbf b3
    then ((c % 8) * 262144 + low b1 * 4096 + low b2 * 64 + low b3, 3)
    else (rune_error, 0)

-- the number is how many bytes of the rune just read are still to be skipped
runes_from : ℕ → Bytes → List ℕ
runes_from k [] = []
runes_from zero (c ∷ s) = (decode_rune c s).0 ∷ runes_from (decode_rune c s).1 s
runes_from (suc k) (c ∷ s) = runes_from k s

unfoldable pub runes : Bytes → List ℕ
unfolding runes_from decode_rune
runes = runes_from 0

chunks_from : ℕ → Bytes → List (ℕ × Bytes)
chunks_from k [] = []
chunks_from zero (c ∷ s) =
    ((decode_rune c s).0, c ∷ take (decode_rune c s).1 s) ∷ chunks_from (decode_rune c s).1 s
chunks_from (suc k) (c ∷ s) = chunks_from k s

-- the runes, each with the bytes that it was read from
unfoldable pub chunks : Bytes → List (ℕ × Bytes)
unfolding chunks_from decode_rune
chunks = chunks_from 0

-- strings.Builder.WriteRune
unfoldable pub encode_rune : ℕ → Bytes
encode_rune r =
    if ltb r 0x80
    then r ∷ []
    else if ltb r 0x800
    then (0xc0 + r / 64) ∷ (0x80 + r % 64) ∷ []
    else if (leb 0xd800 r && leb r 0xdfff) || ltb 0x10ffff r
    then 0xef ∷ 0xbf ∷ 0xbd ∷ []
    else if ltb r 0x10000
    then (0xe0 + r / 4096) ∷ (0x80 + r / 64 % 64) ∷ (0x80 + r % 64) ∷ []
    else (0xf0 + r / 262144) ∷ (0x80 + r / 4096 % 64) ∷ (0x80 + r / 64 % 64) ∷ (0x80 + r % 64) ∷ []

abbrev pub IsAscii : ℕ → Type 0
IsAscii c = c < 0x80

decode_rune_of_IsAscii : (c : ℕ) (s : Bytes) → IsAscii c → decode_rune c s ≡ (c, 0)
unfolding decode_rune
decode_rune_of_IsAscii c s h = rw (lt→ltb c 0x80 h)

-- In ASCII text the runes are the bytes.
pub runes_of_IsAscii : (s : Bytes) → All IsAscii s → runes s ≡ s
unfolding runes_from runes
runes_of_IsAscii [] h = refl
runes_of_IsAscii (c ∷ s) h = rw (decode_rune_of_IsAscii c s h.0, runes_of_IsAscii s h.1)

euro : runes (0x61 ∷ 0xe2 ∷ 0x82 ∷ 0xac ∷ 0xff ∷ 0x62 ∷ []) ≡ 0x61 ∷ 0x20ac ∷ 0xfffd ∷ 0x62 ∷ []
unfolding runes
euro = refl
