-- ===== src/SigV4/Chunked/Sound.antt =====
-- The reader of aws-chunked bodies against their framing.
use pterodactyl_proxmox_back.Prelude.{
  ℕ, zero, suc, ◌<◌, ◌≡◌, refl, sym, ap, ◌↔◌, inl, inr, Option, none, [], ◌∷◌, ◌++◌, arith, Bytes,
  length,
}
use pterodactyl_proxmox_back.SigV4.Canonical.{Crypto}
use pterodactyl_proxmox_back.SigV4.Chunked.{
  ChunkError, ChunkKey, Decoded, prepend, next_chunk, read_chunks, decode_chunked,
}
use pterodactyl_proxmox_back.SigV4.Chunked.Frames.{Frames, last, more, SignedUpTo, nothing, chunk}
use pterodactyl_proxmox_back.SigV4.Chunked.Chunks.{next_chunk_of_ChunkOf, next_chunk-ChunkOf}
use pterodactyl_proxmox_back.SigV4.Chunked.Total.{ChunkOf-shorter}
use pterodactyl_proxmox_back.Prelude.Result.{Result-cases}

abbrev pub whole : Bytes → Decoded
whole content = record { content = content; failure = none }

prepend_whole :
    (piece content : Bytes) (d : Decoded)
    → prepend piece d ≡ whole content
    → (d ≡ whole d.content) × (content ≡ piece ++ d.content)
prepend_whole piece content d h = (
  ap (λ (f : Option ChunkError). record { content = d.content; failure = f })
      (ap (λ (x : Decoded). x.failure) h),
  sym (ap (λ (x : Decoded). x.content) h),
)

module _ (c : Crypto) (k : ChunkKey) where
  read_chunks-Frames :
      (fuel : ℕ) (prev rest content : Bytes)
      → read_chunks c k fuel prev rest ≡ whole content
      → Frames c k prev rest content
  unfolding read_chunks
  read_chunks-Frames zero prev rest content h = absurd (ground arith)
  read_chunks-Frames (suc fuel) prev rest content h =
      elim (Result-cases (next_chunk c k prev rest)) [
        | inl (e, n) ↦ absurd (ground arith)
        | inr (([], s, r), n) ↦
            last (next_chunk-ChunkOf c k prev rest [] s r n)
              (sym (ap (λ (x : Decoded). x.content) (rw n at h)))
        | inr ((b ∷ piece, s, r), n) ↦
            let (d, e) = prepend_whole (b ∷ piece) content (read_chunks c k fuel s r) (rw n at h) in
            more (b ∷ piece) (λ q. cc) (next_chunk-ChunkOf c k prev rest (b ∷ piece) s r n)
              (read_chunks-Frames fuel s r (read_chunks c k fuel s r).content d) e
      ]

  read_of_Frames :
      {prev rest content : Bytes} (fuel : ℕ)
      → length rest < fuel
      → Frames c k prev rest content
      → read_chunks c k fuel prev rest ≡ whole content
  unfolding read_chunks
  read_of_Frames zero l f = absurd (omega arith)
  read_of_Frames (suc fuel) l (last d e) = rw (next_chunk_of_ChunkOf c k d, e)
  read_of_Frames (suc fuel) l (more [] ne d f e) = absurd (ne refl)
  read_of_Frames (suc fuel) l (more (b ∷ piece) ne d f e) =
      rw (
        next_chunk_of_ChunkOf c k d,
        read_of_Frames fuel (omega (arith, ChunkOf-shorter c k d)) f,
        e,
      )

  -- A body is decoded without a failure exactly when it is made of signed chunks, each signed after
  -- the one before and the first after the request, up to an empty one; what is read is then what
  -- the chunks carry.
  pub decode_chunked_iff :
      (seed body content : Bytes)
      → (decode_chunked c k seed body ≡ whole content) ↔ Frames c k seed body content
  unfolding decode_chunked
  decode_chunked_iff seed body content = (
    read_chunks-Frames (suc (length body)) seed body content,
    read_of_Frames (suc (length body)) (omega arith),
  )

  read_chunks-SignedUpTo :
      (fuel : ℕ) (prev rest : Bytes)
      → SignedUpTo c k prev rest (read_chunks c k fuel prev rest).content
  unfolding read_chunks
  read_chunks-SignedUpTo zero prev rest = nothing refl
  read_chunks-SignedUpTo (suc fuel) prev rest = elim (Result-cases (next_chunk c k prev rest)) [
    | inl (e, n) ↦ rw n (nothing refl)
    | inr (([], s, r), n) ↦ rw n (nothing refl)
    | inr ((b ∷ piece, s, r), n) ↦ rw n (
        chunk (b ∷ piece) (next_chunk-ChunkOf c k prev rest (b ∷ piece) s r n)
          (read_chunks-SignedUpTo fuel s r) refl)
  ]

  -- Whatever follows, the bytes that are given out belong to signed chunks at the head of the body,
  -- each signed after the one before and the first after the request.
  pub decode_chunked-SignedUpTo :
      (seed body : Bytes) → SignedUpTo c k seed body (decode_chunked c k seed body).content
  unfolding decode_chunked
  decode_chunked-SignedUpTo seed body = read_chunks-SignedUpTo (suc (length body)) seed body
