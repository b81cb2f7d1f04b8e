-- ===== src/SigV4/Chunked/Tests.antt =====
-- A body of one chunk and the empty one, and the theorems at it.
use pterodactyl_proxmox_back.Prelude.{◌≡◌, refl, ◌≢◌, ◌↔◌, some, [], Bytes, codes}
use pterodactyl_proxmox_back.Strings.Number.{parse_int}
use pterodactyl_proxmox_back.SigV4.Chunked.{
  malformed, signature_mismatch, out_of_fuel, trim_line_end, read_line, header_line, chunk_size,
  read_full, ChunkKey, chunk_signature, next_chunk, read_chunks, decode_chunked,
}
use pterodactyl_proxmox_back.Samples.{toy_crypto, framed, body_of}
use pterodactyl_proxmox_back.Strings.{eq_bytes, cut, join}
use pterodactyl_proxmox_back.Strings.Hex.{hex}
use pterodactyl_proxmox_back.SigV4.Scope.{scope_string}
use pterodactyl_proxmox_back.SigV4.Canonical.{hash_hex, signing_key, sign}
use pterodactyl_proxmox_back.SigV4.Chunked.Frames.{Frames, SignedUpTo}
use pterodactyl_proxmox_back.SigV4.Chunked.Sound.{
  whole, decode_chunked_iff, decode_chunked-SignedUpTo,
}
use pterodactyl_proxmox_back.SigV4.Chunked.Total.{decode_chunked_ends}

abbrev key : ChunkKey
key = record {
  secret_key = codes "SK";
  scope = record {
    access_key = codes "AK";
    date = codes "20130524";
    region = codes "eu";
    service = codes "s3";
  };
  amz_date = codes "20130524T000000Z";
}

abbrev seed : Bytes
seed = codes "6363"

abbrev body : Bytes
body = body_of (codes "abc")

decoded : decode_chunked toy_crypto key seed body ≡ whole (codes "abc")
unfolding decode_chunked read_chunks next_chunk header_line read_line cut trim_line_end chunk_size
    parse_int read_full eq_bytes chunk_signature sign signing_key join scope_string hash_hex hex
decoded = refl

-- the same signatures with other bytes
altered :
    decode_chunked toy_crypto key seed (body_of (codes "abd"))
    ≡ record { content = []; failure = some signature_mismatch }
unfolding decode_chunked read_chunks next_chunk header_line read_line cut trim_line_end chunk_size
    parse_int read_full eq_bytes chunk_signature sign signing_key join scope_string hash_hex hex
altered = refl

-- a body that breaks off
broken_off :
    decode_chunked toy_crypto key seed (framed (codes "3") (codes "4040") (codes "abc"))
    ≡ record { content = codes "abc"; failure = some malformed }
unfolding decode_chunked read_chunks next_chunk header_line read_line cut trim_line_end chunk_size
    parse_int read_full eq_bytes chunk_signature sign signing_key join scope_string hash_hex hex
broken_off = refl

decode_chunked_iff_example :
    (decode_chunked toy_crypto key seed body ≡ whole (codes "abc"))
    ↔ Frames toy_crypto key seed body (codes "abc")
decode_chunked_iff_example = decode_chunked_iff toy_crypto key seed body (codes "abc")

decode_chunked-SignedUpTo_example :
    SignedUpTo toy_crypto key seed body (decode_chunked toy_crypto key seed body).content
decode_chunked-SignedUpTo_example = decode_chunked-SignedUpTo toy_crypto key seed body

decode_chunked_ends_example : (decode_chunked toy_crypto key seed body).failure ≢ some out_of_fuel
decode_chunked_ends_example = decode_chunked_ends toy_crypto key seed body
