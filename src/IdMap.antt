-- ===== src/IdMap.antt =====
-- internal/idmap/sanitize.go: S3 keys to backup ids, bucket names to namespaces.
pub mod Valid
pub mod Clean
pub mod Distinct
pub mod Namespace
pub mod Tests
use pterodactyl_proxmox_back.Prelude.{
  ℕ, ◌-◌, ◌≡◌, Bool, ◌&&◌, ◌||◌, Option, none, some, List, [], ◌∷◌, ◌++◌, map, leb, ◌==◌,
  if◌then◌else◌, Bytes, codes, length, take, All, IsByte,
}
use pterodactyl_proxmox_back.Strings.{eq_bytes, has_suffix, trim_suffix, cut, split, join}
use pterodactyl_proxmox_back.Strings.Utf8.{runes}
use pterodactyl_proxmox_back.Strings.Hex.{hex}

-- crypto/sha256: what the bridge relies on is the size of a sum.
pub record Sha256 : Type 0 where
  pub sum : Bytes → Bytes
  pub length_sum : (m : Bytes) → length (sum m) ≡ 32
  pub sum_IsByte : (m : Bytes) → All IsByte (sum m)

abbrev pub max_backup_id_len : ℕ
max_backup_id_len = 60

abbrev pub hash_suffix_len : ℕ
hash_suffix_len = 8

abbrev pub known_extensions : List Bytes
known_extensions = codes ".tar.gz" ∷ codes ".tgz" ∷ codes ".tar" ∷ codes ".gz" ∷ codes ".zip" ∷ []

strip_first : List Bytes → Bytes → Bytes
strip_first [] key = key
strip_first (ext ∷ exts) key =
    if has_suffix key ext then trim_suffix key ext else strip_first exts key

unfoldable pub strip_known_extensions : Bytes → Bytes
unfolding strip_first
strip_known_extensions = strip_first known_extensions

unfoldable pub is_id_char : ℕ → Bool
is_id_char r =
    (leb b'A' r && leb r b'Z')
    || (leb b'a' r && leb r b'z')
    || (leb b'0' r && leb r b'9')
    || r == b'-'
    || r == b'_'

abbrev sanitize_rune : ℕ → ℕ
sanitize_rune r = if is_id_char r then r else b'_'

unfoldable pub sanitize_chars : Bytes → Bytes
unfolding is_id_char runes
sanitize_chars s = map sanitize_rune (runes s)

unfoldable pub is_clean_lossless : Bytes → Bytes → Bool
unfolding strip_known_extensions eq_bytes
is_clean_lossless original_key sanitized = eq_bytes (strip_known_extensions original_key) sanitized

or_key : Bytes → Bytes
or_key [] = codes "key"
or_key (c ∷ s) = c ∷ s

-- `sanitized` after the test for the empty string
unfoldable pub sanitized_key : Bytes → Bytes
unfolding or_key sanitize_chars strip_known_extensions
sanitized_key key = or_key (sanitize_chars (strip_known_extensions key))

-- the test for the early return
unfoldable pub is_kept : Bytes → Bool
unfolding is_clean_lossless sanitized_key
is_kept key =
    is_clean_lossless key (sanitized_key key) && leb (length (sanitized_key key)) max_backup_id_len

-- the first path segment, or the whole key where there is no slash
abbrev segment_or : Bytes → Option (Bytes × Bytes) → Bytes
segment_or key none = key
segment_or key (some (a, b)) = a

module _ (sha : Sha256) where
  unfoldable pub hash_suffix : Bytes → Bytes
  unfolding hex
  hash_suffix key = take hash_suffix_len (hex (sha.sum key))

  -- the hashed form; `take` is the identity on a text that is short enough
  unfoldable pub hashed_id : Bytes → Bytes
  unfolding hash_suffix sanitized_key
  hashed_id key =
      take (max_backup_id_len - length (hash_suffix key) - 1) (sanitized_key key)
      ++ (b'-' ∷ hash_suffix key)

  unfoldable pub sanitize_backup_id : Bytes → Bytes
  unfolding is_kept hashed_id
  sanitize_backup_id key = if is_kept key then sanitized_key key else hashed_id key

  unfoldable pub group_id_from_key : Bytes → Bytes
  unfolding sanitize_backup_id cut
  group_id_from_key key = sanitize_backup_id (segment_or key (cut b'/' key))

unfoldable pub non_empty_parts : List Bytes → List Bytes
non_empty_parts [] = []
non_empty_parts ([] ∷ ps) = non_empty_parts ps
non_empty_parts ((c ∷ p) ∷ ps) = (c ∷ p) ∷ non_empty_parts ps

unfoldable pub sanitize_namespace : Bytes → Bytes
unfolding non_empty_parts split join
sanitize_namespace bucket = join (b'/' ∷ []) (non_empty_parts (split b'.' bucket))
