-- ===== src/S3Api/Serve/Authentic.antt =====
-- What ServeHTTP lets through to the backend.
use mathlib.Core.Path.{subst}
use pterodactyl_proxmox_back.Prelude.{
  ℤ, pos, ◌≡◌, refl, sym, ap, ◌⊎◌, inl, inr, true, false, Option, some, arith, if◌then◌else◌,
  Bool-cases, Option-cases, Bytes, codes,
}
use pterodactyl_proxmox_back.Prelude.Result.{ok, ok_injective, ok_of_bind, Result-cases}
use pterodactyl_proxmox_back.Prelude.Int.{◌≤ℤ◌}
use pterodactyl_proxmox_back.Http.{Request, query_get}
use pterodactyl_proxmox_back.Strings.Number.{atoi}
use pterodactyl_proxmox_back.SigV4.Canonical.{Crypto}
use pterodactyl_proxmox_back.SigV4.Clock.{IsTolerance}
use pterodactyl_proxmox_back.SigV4.Verify.{Verifier, is_presigned, expected_signature}
use pterodactyl_proxmox_back.SigV4.Presign.{expected_presigned, verify}
use pterodactyl_proxmox_back.SigV4.Verify.Sound.{Presented, verify_header_sound}
use pterodactyl_proxmox_back.SigV4.Presign.Sound.{PresentedUrl, verify_presigned_sound}
use pterodactyl_proxmox_back.SigV4.Chunked.{
  ChunkError, ChunkKey, Decoded, decode_chunked, chunk_key_of_request,
}
use pterodactyl_proxmox_back.SigV4.Chunked.Frames.{Frames, SignedUpTo}
use pterodactyl_proxmox_back.S3Api.{Stream, Response, status_for_code, Context, write_error_code}
use pterodactyl_proxmox_back.S3Api.Serve.{
  Handler, decoded_stream, is_streaming, tagged, healthy, chunked_payload, authenticate,
  write_auth_error, serve,
}
use pterodactyl_proxmox_back.SigV4.Chunked.Sound.{
  whole, decode_chunked_iff, decode_chunked-SignedUpTo,
}
use pterodactyl_proxmox_back.Strings.{eq_bytes}
use pterodactyl_proxmox_back.Strings.Equal.{eq_bytes_iff}
use pterodactyl_proxmox_back.SigV4.Errors.{
  ErrorCode, access_denied, signature_does_not_match, request_time_too_skewed, invalid_argument,
  invalid_access_key_id, code_text,
}
use pterodactyl_proxmox_back.S3Api.Route.{dispatch}

-- A request that is signed by the configured credentials, in the header or in the query.
pub data Signed (c : Crypto) (v : Verifier) (now : ℤ) (r : Request) : Type 0 where
  header :
      (p : Presented v now r)
      → p.parsed.signature ≡ expected_signature c v r p.scope p.lines
      → Signed c v now r
  presigned :
      (p : PresentedUrl v now r)
      → query_get r (codes "X-Amz-Signature") ≡ expected_presigned c v r p.scope p.lines
      → Signed c v now r

-- The body that the handlers read: that of the request, or for a streaming upload what signed
-- chunks carry, all of them up to the empty one unless reading fails.
pub data Payload (h : Handler) (r : Request) (body payload : Stream) : Type 0 where
  plain : is_streaming r ≡ false → payload ≡ body → Payload h r body payload
  chunked :
      (key : ChunkKey) (seed : Bytes)
      → is_streaming r ≡ true
      → chunk_key_of_request r h.verifier.creds.secret_key ≡ some (key, seed)
      → SignedUpTo h.crypto key seed body.content payload.content
      → (payload.is_broken ≡ false → Frames h.crypto key seed body.content payload.content)
      → Payload h r body payload

-- An answer that comes without a call of the backend.
abbrev pub AnsweredAlone : Request → Response → Type 0
AnsweredAlone r a =
    ((r.path ≡ codes "/healthz") × (a.status ≡ 200)) ⊎ (a.status ≡ 400) ⊎ (a.status ≡ 403)

auth_error_status :
    (ctx : Context) (e : ErrorCode) (m : Bytes)
    → ((write_error_code ctx (code_text e) m).status ≡ 400)
      ⊎ ((write_error_code ctx (code_text e) m).status ≡ 403)
unfolding write_error_code code_text status_for_code eq_bytes
auth_error_status ctx access_denied m = inr refl
auth_error_status ctx signature_does_not_match m = inr refl
auth_error_status ctx request_time_too_skewed m = inr refl
auth_error_status ctx invalid_argument m = inl refl
auth_error_status ctx invalid_access_key_id m = inr refl

tagged_status : (request_id : Bytes) (a : Response) → (tagged request_id a).status ≡ a.status
unfolding tagged
tagged_status request_id a = ground arith

whole_of_intact : (d : Decoded) → (decoded_stream d).is_broken ≡ false → d ≡ whole d.content
whole_of_intact d e = elim (Option-cases d.failure) [
  | inl n ↦ ap (λ (f : Option ChunkError). record { content = d.content; failure = f }) n
  | inr (x, n) ↦ absurd (ground arith)
]

abbrev pub answered : {S : Type 0} → Bytes → Response × S → Response × S
answered request_id (a, s) = (tagged request_id a, s)

module _ (h : Handler) (now : ℤ) (r : Request) (body : Stream)
    (tolerance : IsTolerance h.verifier.clock_skew)
    (short : (e : ℤ)
      → atoi (query_get r (codes "X-Amz-Expires")) ≡ some e
      → e ≤ℤ pos 9223372036) where
  verify-Signed : verify h.crypto h.verifier now r ≡ ok tt → Signed h.crypto h.verifier now r
  unfolding verify
  verify-Signed e = elim (Bool-cases (is_presigned r)) [
    | inl q ↦
        let (p, s) = verify_presigned_sound h.crypto h.verifier now r short (rw q at e) in
        presigned p s
    | inr q ↦
        let (p, s) = verify_header_sound h.crypto h.verifier tolerance now r (rw q at e) in
        header p s
  ]

  chunked_Payload :
      (key : ChunkKey) (seed : Bytes)
      → is_streaming r ≡ true
      → chunk_key_of_request r h.verifier.creds.secret_key ≡ some (key, seed)
      → Payload h r body (decoded_stream (decode_chunked h.crypto key seed body.content))
  chunked_Payload key seed q k =
      let d = decode_chunked h.crypto key seed body.content in
      chunked key seed q k (decode_chunked-SignedUpTo h.crypto key seed body.content)
        (λ e. (decode_chunked_iff h.crypto key seed body.content d.content).0 (whole_of_intact d e))

  swapped-Payload :
      (payload : Stream)
      → (if is_streaming r
          then chunked_payload h body (chunk_key_of_request r h.verifier.creds.secret_key)
          else ok body)
        ≡ ok payload
      → Payload h r body payload
  swapped-Payload payload e = elim (Bool-cases (is_streaming r)) [
    | inr q ↦ plain q (sym (ok_injective (rw q at e)))
    | inl q ↦ elim (Option-cases (chunk_key_of_request r h.verifier.creds.secret_key)) [
      | inl n ↦ absurd (ground arith)
      | inr ((key, seed), n) ↦
          subst (Payload h r body) (ok_injective (rw (q, n) at e)) (chunked_Payload key seed q n)
    ]
  ]

  -- what an authenticated request is, and what its handlers read
  authenticate-Payload :
      (payload : Stream)
      → authenticate h now r body ≡ ok payload
      → Signed h.crypto h.verifier now r × Payload h r body payload
  unfolding authenticate
  authenticate-Payload payload e =
      let (u, v, k) = ok_of_bind (verify h.crypto h.verifier now r) _ e in
      (verify-Signed v, swapped-Payload payload k)

  -- A request either is answered without the backend, with 200 at /healthz and else with 400 or
  -- 403, and leaves its state; or it is signed with the configured credentials, and is answered by
  -- the dispatch of its path. A time that is signed in the header is within the tolerance of the
  -- server's, or 2^63 nanoseconds or more ahead of it; one in the query has its window at the
  -- server's time. What the handlers then read is, for a streaming upload, what its signed chunks
  -- carry, and for any other request its body as it was sent, which is not compared with the hash in
  -- its header. The clock skew is a tolerance and a lifetime in the query is at most 9223372036
  -- seconds.
  pub serve_authentic :
      (request_id : Bytes) (s : h.backend.State)
      → ((serve h now request_id r body s).1 ≡ s
          × AnsweredAlone r (serve h now request_id r body s).0)
        ⊎ (Signed h.crypto h.verifier now r
            × ((payload : Stream) × Payload h r body payload
                × (serve h now request_id r body s
                    ≡ answered request_id (
                        dispatch h.backend h.parse
                          (record { path = r.path; request_id = request_id })
                          r
                          payload
                          s))))
  unfolding serve write_auth_error
  serve_authentic request_id s = elim (Bool-cases (eq_bytes r.path (codes "/healthz"))) [
    | inl e ↦ rw e (
        inl (
          refl,
          inl ((eq_bytes_iff r.path (codes "/healthz")).0 e, tagged_status request_id healthy),
        ))
    | inr e ↦ elim (Result-cases (authenticate h now r body)) [
      | inl (x, a) ↦
          rw (e, a, tagged_status) (inl (refl, inr (auth_error_status _ x (h.message r x))))
      | inr (payload, a) ↦
          let (signed, p) = authenticate-Payload payload a in
          rw (e, a) (inr (signed, (payload, p, refl)))
    ]
  ]
