-- ===== src/S3Api/Serve/Tests.antt =====
-- A streaming upload, and the theorem at it.
use pterodactyl_proxmox_back.Prelude.{
  ℤ, pos, ◌≡◌, refl, ◌⊎◌, false, none, some, [], ◌∷◌, ◌++◌, arith, Bytes, codes,
}
use pterodactyl_proxmox_back.Http.{
  Request, header_get, query_get, canonical_header_key, trim_space, equal_fold,
}
use pterodactyl_proxmox_back.Strings.{
  eq_bytes, lt_bytes, has_prefix, trim_prefix, cut, split, join, contains,
}
use pterodactyl_proxmox_back.Strings.Hex.{hex}
use pterodactyl_proxmox_back.SigV4.Encode.{uri_encode, canonical_uri}
use pterodactyl_proxmox_back.SigV4.Scope.{Scope, parse_credential, scope_string}
use pterodactyl_proxmox_back.SigV4.Canonical.{
  streaming_payload, canonical_query_string, collapse_spaces, header_value, header_lines,
  canonical_headers, build_canonical_request, string_to_sign, hash_hex, signing_key, sign,
}
use pterodactyl_proxmox_back.SigV4.Verify.{
  Verifier, service_of, is_presigned, date_text, expected_signature, verify_header,
}
use pterodactyl_proxmox_back.S3Api.Serve.{Handler, is_streaming, authenticate, serve}
use pterodactyl_proxmox_back.S3Api.Toy.{one_object}
use pterodactyl_proxmox_back.Samples.{toy_crypto, body_of}
use pterodactyl_proxmox_back.Prelude.Int.{◌-ℤ◌, ◌≤ℤ◌}
use pterodactyl_proxmox_back.Strings.Utf8.{decode_rune, runes, encode_rune}
use pterodactyl_proxmox_back.Strings.Number.{parse_int, atoi}
use pterodactyl_proxmox_back.Sorting.{sort}
use pterodactyl_proxmox_back.Sorting.Pairs.{less_pair}
use pterodactyl_proxmox_back.SigV4.Clock.{check_skew, IsTolerance}
use pterodactyl_proxmox_back.SigV4.AmzDate.{parse_amz_date}
use pterodactyl_proxmox_back.SigV4.AuthHeader.{parse_authorization_header}
use pterodactyl_proxmox_back.SigV4.Presign.{verify}
use pterodactyl_proxmox_back.SigV4.Chunked.{
  trim_line_end, read_line, header_line, chunk_size, read_full, chunk_signature, next_chunk,
  read_chunks, decode_chunked, chunk_key_of_request,
}
use pterodactyl_proxmox_back.S3Api.{Stream}
use pterodactyl_proxmox_back.S3Api.Objects.{handle_put_object}
use pterodactyl_proxmox_back.S3Api.Route.{split_path, operation_of, operation, dispatch}
use pterodactyl_proxmox_back.S3Api.Serve.Authentic.{
  Signed, Payload, AnsweredAlone, answered, serve_authentic,
}

abbrev verifier : Verifier
verifier = record {
  creds = record { access_key = codes "AK"; secret_key = codes "SK" };
  service = [];
  clock_skew = pos 900000000000;
}

abbrev signed_with : Bytes → Request
signed_with signature = record {
  method = codes "PUT";
  path = codes "/b/k";
  host = codes "h";
  url_host = [];
  header =
      (codes "X-Amz-Date", codes "20130524T000000Z")
      ∷ (codes "X-Amz-Content-Sha256", streaming_payload)
      ∷ (
        codes "Authorization",
        codes
              "AWS4-HMAC-SHA256 Credential=AK/20130524/eu/s3/aws4_request, SignedHeaders=host;x-amz-date, Signature="
            ++ signature,
      )
      ∷ [];
  query = [];
}

abbrev scope : Scope
scope = record {
  access_key = codes "AK";
  date = codes "20130524";
  region = codes "eu";
  service = codes "s3";
}

abbrev handler : Handler
handler = record {
  crypto = toy_crypto;
  verifier = verifier;
  backend = one_object;
  parse = λ s. none;
  message = λ r e. [];
}

abbrev upload : Request
upload = signed_with (codes "6363")

abbrev body : Bytes → Stream
body text = record { content = body_of text; is_broken = false }

abbrev request_time : ℤ
request_time = pos 63536572800000000000

tolerated : IsTolerance verifier.clock_skew
tolerated = (omega arith, omega arith)

short : (e : ℤ) → atoi (query_get upload (codes "X-Amz-Expires")) ≡ some e → e ≤ℤ pos 9223372036
unfolding parse_int query_get
short e h = ground arith

-- the object that an upload leaves
stored_after : Bytes → Bytes → Bytes
unfolding serve authenticate verify is_streaming is_presigned verify_header expected_signature
    parse_authorization_header has_prefix split cut trim_space eq_bytes parse_credential service_of
    date_text parse_amz_date check_skew ◌-ℤ◌ canonical_headers header_lines header_value header_get
    equal_fold runes decode_rune canonical_header_key contains collapse_spaces encode_rune sort
    lt_bytes less_pair join canonical_query_string canonical_uri uri_encode build_canonical_request
    string_to_sign scope_string sign signing_key hash_hex hex decode_chunked read_chunks next_chunk
    header_line read_line trim_line_end chunk_size parse_int read_full chunk_signature
    chunk_key_of_request dispatch split_path trim_prefix operation operation_of handle_put_object
    query_get
stored_after signature text =
    (serve handler request_time (codes "q") (signed_with signature) (body text) (codes "xyz")).1

-- what the chunks carry is stored,
accepted : stored_after (codes "6363") (codes "abc") ≡ codes "abc"
unfolding stored_after
accepted = refl

-- and a forged upload changes nothing
refused : stored_after (codes "0000") (codes "abc") ≡ codes "xyz"
unfolding stored_after
refused = refl

serve_authentic_example :
    (((serve handler request_time (codes "q") upload (body (codes "abc")) (codes "xyz")).1
        ≡ codes "xyz")
      × AnsweredAlone upload
          (serve handler request_time (codes "q") upload (body (codes "abc")) (codes "xyz")).0)
    ⊎ (Signed toy_crypto verifier request_time upload
        × ((payload : Stream) × Payload handler upload (body (codes "abc")) payload
            × (serve handler request_time (codes "q") upload (body (codes "abc")) (codes "xyz")
                ≡ answered (codes "q") (
                    dispatch one_object handler.parse
                      (record { path = codes "/b/k"; request_id = codes "q" })
                      upload
                      payload
                      (codes "xyz")))))
serve_authentic_example =
    serve_authentic handler request_time upload (body (codes "abc")) tolerated short (codes "q")
      (codes "xyz")
