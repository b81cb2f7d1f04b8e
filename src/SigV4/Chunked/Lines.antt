-- ===== src/SigV4/Chunked/Lines.antt =====
-- The header line of a chunk: what `header_line` reads is what the framing calls one.
use mathlib.Core.Path.{subst}
use pterodactyl_proxmox_back.Prelude.{
  ◌≡◌, refl, ap, ◌∙◌, ◌≢◌, ◌↔◌, inl, inr, false, [], ◌∷◌, ◌++◌, arith, if◌then◌else◌, Option-cases,
  Bytes,
}
use pterodactyl_proxmox_back.Strings.{cut}
use pterodactyl_proxmox_back.Strings.Split.{cut-append, cut-parts}
use pterodactyl_proxmox_back.Prelude.Result.{Result, ok, ok_injective, ok_of_bind}
use pterodactyl_proxmox_back.SigV4.Chunked.{ChunkError, is_nil, Line, read_line, header_line}
use pterodactyl_proxmox_back.SigV4.Chunked.Frames.{LineOf, HeaderOf, direct, after_blank}

line_eq :
    {a b line r : Bytes}
    → ◌≡◌ {A = Result ChunkError Line} (ok (a, b)) (ok (line, r))
    → (a ≡ line) × (b ≡ r)
line_eq h = (ap (λ x. x.0) (ok_injective h), ap (λ x. x.1) (ok_injective h))

-- A line that is read is one of the text.
pub read_line_iff : (rest line r : Bytes) → (read_line rest ≡ ok (line, r)) ↔ LineOf rest line r
unfolding read_line
read_line_iff rest line r = (
  λ h. elim (Option-cases (cut 10 rest)) [
    | inl n ↦ absurd (ground arith)
    | inr ((raw, s), n) ↦
        let (a, b) = line_eq (rw n at h) in
        let (free, text) = cut-parts 10 rest raw s n in
        record {
          raw = raw;
          whole = free;
          trimmed = a;
          text = text ∙ ap (λ (x : Bytes). raw ++ (10 ∷ x)) b;
        }
  ],
  λ l. rw (l.text, cut-append 10 l.raw r l.whole, l.trimmed),
)

is_nil-ne : (s : Bytes) → s ≢ [] → is_nil s ≡ false
is_nil-ne [] h = absurd (h refl)
is_nil-ne (x ∷ s) h = refl

header_of :
    (rest first s line r : Bytes)
    → LineOf rest first s
    → (if is_nil first then read_line s else ok (first, s)) ≡ ok (line, r)
    → HeaderOf rest line r
header_of rest [] s line r l k = after_blank s l ((read_line_iff s line r).0 k)
header_of rest (x ∷ first) s line r l k =
    let (a, b) = line_eq k in
    direct (subst (λ y. LineOf rest y r) a (subst (λ y. LineOf rest (x ∷ first) y) b l)) (λ n. cc)

-- A header line that is read is one of the text.
pub header_line_iff :
    (rest line r : Bytes) → (header_line rest ≡ ok (line, r)) ↔ HeaderOf rest line r
unfolding header_line
header_line_iff rest line r = (
  λ h.
      let ((first, s), e, k) =
        ok_of_bind (read_line rest) (λ (l, r). if is_nil l then read_line r else ok (l, r)) h in
      header_of rest first s line r ((read_line_iff rest first s).0 e) k,
  λ d. elim d [
    | direct l ne ↦ rw ((read_line_iff rest line r).1 l, is_nil-ne line ne)
    | after_blank s l l2 ↦ rw ((read_line_iff rest [] s).1 l) ((read_line_iff s line r).1 l2)
  ],
)
