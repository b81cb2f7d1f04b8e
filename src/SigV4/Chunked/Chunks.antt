-- ===== src/SigV4/Chunked/Chunks.antt =====
-- One chunk: what `next_chunk` accepts is what the framing calls a chunk.
use mathlib.Core.Path.{subst}
use pterodactyl_proxmox_back.Prelude.{
  ℕ, ◌≡◌, refl, sym, ap, ◌∙◌, ◌≢◌, ◌↔◌, inl, inr, Bool, true, false, not, some, [], ◌∷◌, ◌++◌,
  arith, leb, Bool-cases, Option-cases, Bytes, length, length-append, length-take, take-append-drop,
  take-length-append, drop-length-append,
}
use pterodactyl_proxmox_back.Strings.Split.{some_pair_eq}
use pterodactyl_proxmox_back.Prelude.Result.{Result, ok, ◌>>◌, require, ok_injective, Result-cases}
use pterodactyl_proxmox_back.Strings.Equal.{eq_bytes_iff}
use pterodactyl_proxmox_back.SigV4.Canonical.{Crypto}
use pterodactyl_proxmox_back.SigV4.Chunked.{
  ChunkError, is_nil, header_line, chunk_size, extension_signature, read_full, ChunkKey,
  chunk_signature, next_chunk,
}
use pterodactyl_proxmox_back.SigV4.Chunked.Frames.{ChunkOf}
use pterodactyl_proxmox_back.SigV4.Chunked.Lines.{header_line_iff}
use pterodactyl_proxmox_back.Strings.{eq_bytes, cut}

-- What is read in full is the head of the text.
pub read_full_iff :
    (n : ℕ) (rest a b : Bytes) → (read_full n rest ≡ some (a, b)) ↔ (length a ≡ n) × (rest ≡ a ++ b)
unfolding read_full
read_full_iff n rest a b = (
  λ h. elim (Bool-cases (leb n (length rest))) [
    | inl e ↦
        let (x, y) = some_pair_eq (rw e at h) in
        (
          ap length (sym x) ∙ length-take n rest (ground arith),
          sym (take-append-drop n rest) ∙ (λ i. x i ++ y i),
        )
    | inr e ↦ absurd (ground arith)
  ],
  λ l.
      let long : leb n (length rest) ≡ true =
        ground (arith, ap length l.1, length-append {0} a b) in
      rw long (rw (l.1, sym l.0, take-length-append a b, drop-length-append a b)),
)

require_bind :
    {A : Type 0} (b : Bool) (e : ChunkError) (m : Result ChunkError A) {x : A}
    → require b e >> m ≡ ok x
    → (b ≡ true) × (m ≡ ok x)
require_bind true e m h = (refl, h)
require_bind false e m h = cc

not_nil_iff : (s : Bytes) → (not (is_nil s) ≡ true) ↔ (s ≢ [])
not_nil_iff [] = (λ h. cc, λ h. absurd (h refl))
not_nil_iff (x ∷ s) = (λ h e. cc, λ h. refl)

abbrev pub Chunk : Type 0
Chunk = Bytes × Bytes × Bytes

module _ (c : Crypto) (k : ChunkKey) where
  -- A chunk that is framed and signed is read,
  pub next_chunk_of_ChunkOf :
      {prev rest piece signature r : Bytes}
      → ChunkOf c k prev rest piece signature r
      → next_chunk c k prev rest ≡ ok (piece, signature, r)
  unfolding next_chunk
  next_chunk_of_ChunkOf {prev} {rest} {piece} {signature} {r} d = rw (
    (header_line_iff rest d.line d.after_header).1 d.header,
    d.size,
    d.named,
    (not_nil_iff signature).1 d.present,
    (read_full_iff (length piece) d.after_header piece (d.ending ++ r)).1 (refl, d.text),
    (read_full_iff 2 (d.ending ++ r) d.ending r).1 (d.ends, refl),
    (eq_bytes_iff (chunk_signature c k prev piece) signature).1 (sym d.signed),
  )

  parts-ChunkOf :
      (prev rest line r1 : Bytes) (size : ℕ) (piece r2 ending r : Bytes)
      → header_line rest ≡ ok (line, r1)
      → chunk_size line ≡ some size
      → extension_signature (cut b';' line) ≢ []
      → read_full size r1 ≡ some (piece, r2)
      → read_full 2 r2 ≡ some (ending, r)
      → chunk_signature c k prev piece ≡ extension_signature (cut b';' line)
      → ChunkOf c k prev rest piece (extension_signature (cut b';' line)) r
  parts-ChunkOf prev rest line r1 size piece r2 ending r e1 e2 e3 e4 e5 e6 =
      let (n, text) = (read_full_iff size r1 piece r2).0 e4 in
      let (m, text2) = (read_full_iff 2 r2 ending r).0 e5 in
      record {
        line = line;
        after_header = r1;
        ending = ending;
        header = (header_line_iff rest line r1).0 e1;
        size = e2 ∙ ap some (sym n);
        named = refl;
        present = e3;
        text = text ∙ ap (◌++◌ piece) text2;
        ends = m;
        signed = sym e6;
      }

  ChunkOf-eq :
      (prev rest : Bytes) {p s t piece signature r : Bytes}
      → ◌≡◌ {A = Result ChunkError Chunk} (ok (p, s, t)) (ok (piece, signature, r))
      → ChunkOf c k prev rest p s t
      → ChunkOf c k prev rest piece signature r
  ChunkOf-eq prev rest e = subst (λ (x : Chunk). ChunkOf c k prev rest x.0 x.1 x.2) (ok_injective e)

  -- and what is read is one.
  pub next_chunk-ChunkOf :
      (prev rest piece signature r : Bytes)
      → next_chunk c k prev rest ≡ ok (piece, signature, r)
      → ChunkOf c k prev rest piece signature r
  unfolding next_chunk
  next_chunk-ChunkOf prev rest piece signature r h = elim (Result-cases (header_line rest)) [
    | inl (e, e1) ↦ absurd (ground arith)
    | inr ((line, r1), e1) ↦ elim (Option-cases (chunk_size line)) [
      | inl e2 ↦ absurd (ground arith)
      | inr (size, e2) ↦
          let sig = extension_signature (cut b';' line) in
          let (e3, h3) = require_bind (not (is_nil sig)) _ _ (rw (e1, e2) at h) in
          elim (Option-cases (read_full size r1)) [
            | inl e4 ↦ absurd (ground arith)
            | inr ((p, r2), e4) ↦ elim (Option-cases (read_full 2 r2)) [
              | inl e5 ↦ absurd (ground arith)
              | inr ((ending, r3), e5) ↦
                  let (e6, h6) =
                    require_bind (eq_bytes (chunk_signature c k prev p) sig) _ _
                      (rw (e4, e5) at h3) in
                  ChunkOf-eq prev rest h6 (
                    parts-ChunkOf prev rest line r1 size p r2 ending r3 e1 e2
                      ((not_nil_iff sig).0 e3) e4 e5
                      ((eq_bytes_iff (chunk_signature c k prev p) sig).0 e6))
            ]
          ]
    ]
  ]
