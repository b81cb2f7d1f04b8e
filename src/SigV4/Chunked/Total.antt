-- ===== src/SigV4/Chunked/Total.antt =====
-- Reading an aws-chunked body comes to an end.
use mathlib.Core.Option.{some-injective}
use pterodactyl_proxmox_back.Prelude.{
  ℕ, zero, suc, ◌<◌, ◌≡◌, ap, ◌∙◌, ◌≢◌, inl, inr, Bool, true, false, Option, none, some, [], ◌∷◌,
  ◌++◌, arith, if◌then◌else◌, Bytes, length, length-append,
}
use pterodactyl_proxmox_back.Prelude.Result.{Result, ok, err, ◌>>=◌, require, or_err, Result-cases}
use pterodactyl_proxmox_back.SigV4.Canonical.{Crypto}
use pterodactyl_proxmox_back.SigV4.Chunked.{
  ChunkError, malformed, signature_mismatch, out_of_fuel, is_nil, read_line, header_line,
  chunk_size, extension_signature, read_full, ChunkKey, next_chunk, read_chunks, decode_chunked,
}
use pterodactyl_proxmox_back.SigV4.Chunked.Frames.{LineOf, HeaderOf, direct, after_blank, ChunkOf}
use pterodactyl_proxmox_back.SigV4.Chunked.Chunks.{next_chunk-ChunkOf}
use pterodactyl_proxmox_back.Strings.{cut}

-- No step of the reader says that it is out of fuel.
abbrev Tame : {A : Type 0} → Result ChunkError A → Type 0
Tame m = m ≢ err out_of_fuel

err_injective :
    {A : Type 0} {a b : ChunkError} → ◌≡◌ {A = Result ChunkError A} (err a) (err b) → a ≡ b
err_injective {a = a} h = ap (λ r. elim r [ ok x ↦ a | err e ↦ e ]) h

Tame-ok : {A : Type 0} (a : A) → Tame (ok a)
Tame-ok a h = cc

Tame-bind :
    {A B : Type 0} (m : Result ChunkError A) (f : A → Result ChunkError B)
    → Tame m
    → ((a : A) → Tame (f a))
    → Tame (m >>= f)
Tame-bind (ok a) f h k = k a
Tame-bind (err e) f h k = λ q. h (ap err (err_injective q))

Tame-or_err : {A : Type 0} (o : Option A) → Tame (or_err o malformed)
Tame-or_err none h = cc
Tame-or_err (some a) h = cc

Tame-require : (b : Bool) (e : ChunkError) → e ≢ out_of_fuel → Tame (require b e)
Tame-require true e ne h = cc
Tame-require false e ne h = ne (err_injective h)

read_line-Tame : (rest : Bytes) → Tame (read_line rest)
unfolding read_line
read_line-Tame rest =
    Tame-bind (or_err (cut 10 rest) malformed) _ (Tame-or_err (cut 10 rest)) (λ l h. cc)

line_or_next-Tame : (line r : Bytes) → Tame (if is_nil line then read_line r else ok (line, r))
line_or_next-Tame [] r = read_line-Tame r
line_or_next-Tame (x ∷ line) r = λ h. cc

header_line-Tame : (rest : Bytes) → Tame (header_line rest)
unfolding header_line
header_line-Tame rest =
    Tame-bind (read_line rest) _ (read_line-Tame rest) λ (line, r). line_or_next-Tame line r

module _ {rest line r : Bytes} where
  LineOf-shorter : LineOf rest line r → length r < length rest
  LineOf-shorter l = omega (arith, ap length l.text, length-append l.raw (10 ∷ r))

HeaderOf-shorter : {rest line r : Bytes} → HeaderOf rest line r → length r < length rest
HeaderOf-shorter (direct l ne) = LineOf-shorter l
HeaderOf-shorter (after_blank s l l2) = omega (arith, LineOf-shorter l, LineOf-shorter l2)

module _ (c : Crypto) (k : ChunkKey) where
  pub ChunkOf-shorter :
      {prev rest piece signature r : Bytes}
      → ChunkOf c k prev rest piece signature r
      → length r < length rest
  ChunkOf-shorter {piece = piece} {r = r} d = omega (
    arith,
    HeaderOf-shorter d.header,
    ap length d.text,
    length-append piece (d.ending ++ r),
    length-append d.ending r,
  )

  next_chunk-Tame : (prev rest : Bytes) → Tame (next_chunk c k prev rest)
  unfolding next_chunk
  next_chunk-Tame prev rest = Tame-bind (header_line rest) _ (header_line-Tame rest) λ (line, r).
      Tame-bind (or_err (chunk_size line) malformed) _ (Tame-or_err (chunk_size line)) λ size.
        Tame-bind (require _ malformed) _ (Tame-require _ malformed (λ h. cc)) λ _.
          Tame-bind (or_err (read_full size r) malformed) _ (Tame-or_err (read_full size r))
            λ (piece, r2).
              Tame-bind (or_err (read_full 2 r2) malformed) _ (Tame-or_err (read_full 2 r2))
                λ (ending, r3).
                  Tame-bind (require _ signature_mismatch) _
                    (Tame-require _ signature_mismatch (λ h. cc))
                    λ _. Tame-ok (piece, extension_signature (cut b';' line), r3)

  read_chunks-enough :
      (fuel : ℕ) (prev rest : Bytes)
      → length rest < fuel
      → (read_chunks c k fuel prev rest).failure ≢ some out_of_fuel
  unfolding read_chunks
  read_chunks-enough zero prev rest l = absurd (omega arith)
  read_chunks-enough (suc fuel) prev rest l = elim (Result-cases (next_chunk c k prev rest)) [
    | inl (e, h) ↦ rw h (λ q. next_chunk-Tame prev rest (h ∙ ap err (some-injective _ _ q)))
    | inr (([], s, r), h) ↦ rw h (ground arith)
    | inr ((b ∷ piece, s, r), h) ↦ rw h (
        read_chunks-enough fuel s r
          (omega (arith, ChunkOf-shorter (next_chunk-ChunkOf c k prev rest (b ∷ piece) s r h))))
  ]

  -- Reading a body never runs out of the fuel that it is given.
  pub decode_chunked_ends :
      (seed body : Bytes) → (decode_chunked c k seed body).failure ≢ some out_of_fuel
  unfolding decode_chunked
  decode_chunked_ends seed body = read_chunks-enough (suc (length body)) seed body (omega arith)
