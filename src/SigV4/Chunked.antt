-- ===== src/SigV4/Chunked.antt =====
-- internal/sigv4/chunked.go: the reader of aws-chunked bodies. What can be read of a body is a text;
-- whether it then ends or breaks off makes no difference to this reader.
pub mod Frames
pub mod Lines
pub mod Chunks
pub mod Sound
pub mod Total
pub mod Tests
use pterodactyl_proxmox_back.Prelude.{
  ℤ, pos, ℕ, zero, suc, Bool, true, false, not, ◌&&◌, ◌||◌, Option, none, some, [], ◌∷◌, ◌++◌, leb,
  ◌==◌, if◌then◌else◌, Bytes, codes, length, take, drop,
}
use pterodactyl_proxmox_back.Prelude.Result.{Result, ok, err, ◌>>=◌, ◌>>◌, require, or_err}
use pterodactyl_proxmox_back.Prelude.Int.{pos_part, ltb_ℤ}
use pterodactyl_proxmox_back.Http.{Request, header_get}
use pterodactyl_proxmox_back.Strings.{eq_bytes, cut, join}
use pterodactyl_proxmox_back.Strings.Number.{parse_int}
use pterodactyl_proxmox_back.SigV4.Scope.{Scope, parse_credential, scope_string}
use pterodactyl_proxmox_back.SigV4.Canonical.{Crypto, hash_hex, sign, secure_compare}
use pterodactyl_proxmox_back.SigV4.AuthHeader.{parse_authorization_header}

-- what a read fails with, besides the end of the body
pub data ChunkError : Type 0 where
  malformed signature_mismatch out_of_fuel : ChunkError

-- maxChunkSize
abbrev pub max_chunk_size : ℤ
max_chunk_size = pos 268435456

abbrev pub is_nil : Bytes → Bool
is_nil [] = true
is_nil (c ∷ s) = false

-- strings.TrimRight(line, "\r\n")
unfoldable pub trim_line_end : Bytes → Bytes
trim_line_end [] = []
trim_line_end (c ∷ s) =
    let rest = trim_line_end s in if (c == 13 || c == 10) && is_nil rest then [] else c ∷ rest

abbrev pub Line : Type 0
Line = Bytes × Bytes

-- a line without its end, and what follows it
unfoldable pub read_line : Bytes → Result ChunkError Line
read_line rest = or_err (cut 10 rest) malformed >>= λ (line, r). ok (trim_line_end line, r)

-- one blank line is passed over
unfoldable pub header_line : Bytes → Result ChunkError Line
header_line rest = read_line rest >>= λ (line, r). if is_nil line then read_line r else ok (line, r)

-- strings.SplitN(line, ";", 2)
abbrev pub head_of : Bytes → Option (Bytes × Bytes) → Bytes
head_of line none = line
head_of line (some (a, b)) = a

abbrev pub size_in_bounds : Option ℤ → Option ℕ
size_in_bounds none = none
size_in_bounds (some z) =
    if ltb_ℤ z (pos 0) || ltb_ℤ max_chunk_size z then none else some (pos_part z)

unfoldable pub chunk_size : Bytes → Option ℕ
chunk_size line = size_in_bounds (parse_int 16 (head_of line (cut b';' line)))

abbrev pub named_signature : Option (Bytes × Bytes) → Bytes
named_signature none = []
named_signature (some (k, v)) = if eq_bytes k (codes "chunk-signature") then v else []

abbrev pub extension_signature : Option (Bytes × Bytes) → Bytes
extension_signature none = []
extension_signature (some (a, b)) = named_signature (cut b'=' b)

-- io.ReadFull
unfoldable pub read_full : ℕ → Bytes → Option (Bytes × Bytes)
read_full n rest = if leb n (length rest) then some (take n rest, drop n rest) else none

-- the reader's configuration
pub record ChunkKey : Type 0 where
  pub secret_key : Bytes
  pub scope : Scope
  pub amz_date : Bytes

pub record Decoded : Type 0 where
  pub content : Bytes
  pub failure : Option ChunkError

abbrev pub prepend : Bytes → Decoded → Decoded
prepend piece d = record d { content = piece ++ d.content }

module _ (c : Crypto) (k : ChunkKey) where
  -- computeChunkSignature
  unfoldable pub chunk_signature : Bytes → Bytes → Bytes
  chunk_signature prev piece = sign c k.secret_key k.scope (
      join (10 ∷ []) (
        codes "AWS4-HMAC-SHA256-PAYLOAD"
        ∷ k.amz_date
        ∷ scope_string k.scope
        ∷ prev
        ∷ hash_hex c []
        ∷ hash_hex c piece
        ∷ []))

  -- nextChunk: the bytes of a chunk, its signature, and what follows it
  unfoldable pub next_chunk : Bytes → Bytes → Result ChunkError (Bytes × Bytes × Bytes)
  next_chunk prev rest = do
    (line, r) ← header_line rest
    size ← or_err (chunk_size line) malformed
    let signature = extension_signature (cut b';' line) in
        do
          require (not (is_nil signature)) malformed
          (piece, r2) ← or_err (read_full size r) malformed
          (ending, r3) ← or_err (read_full 2 r2) malformed
          require (secure_compare (chunk_signature prev piece) signature) signature_mismatch
          ok (piece, signature, r3)

  abbrev pub after_chunk :
      (Bytes → Bytes → Decoded) → Result ChunkError (Bytes × Bytes × Bytes) → Decoded
  after_chunk further (err e) = record { content = []; failure = some e }
  after_chunk further (ok ([], signature, r)) = record { content = []; failure = none }
  after_chunk further (ok (b ∷ piece, signature, r)) = prepend (b ∷ piece) (further signature r)

  -- what Read gives until it fails or the empty chunk ends the body
  unfoldable pub read_chunks : ℕ → Bytes → Bytes → Decoded
  read_chunks zero prev rest = record { content = []; failure = some out_of_fuel }
  read_chunks (suc fuel) prev rest = after_chunk (read_chunks fuel) (next_chunk prev rest)

  -- the whole body, after the signature of the request
  unfoldable pub decode_chunked : Bytes → Bytes → Decoded
  decode_chunked seed body = read_chunks (suc (length body)) seed body

-- NewChunkedReaderFromRequest: the key of the reader, and the signature that the first chunk's
-- follows on
unfoldable pub chunk_key_of_request : Request → Bytes → Option (ChunkKey × Bytes)
chunk_key_of_request r secret_key =
    elim (parse_authorization_header (header_get r (codes "Authorization"))) [
      | none ↦ none
      | some parsed ↦ elim (parse_credential parsed.credential) [
        | none ↦ none
        | some scope ↦
            let date = header_get r (codes "X-Amz-Date") in
            if is_nil date
            then none
            else some (
              record { secret_key = secret_key; scope = scope; amz_date = date },
              parsed.signature,
            )
      ]
    ]
