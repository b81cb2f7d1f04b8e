-- ===== src/S3Api/Etag.antt =====
-- internal/s3api/put_object.go and multipart_complete.go: quotes around an ETag.
use pterodactyl_proxmox_back.Prelude.{
  suc, ◌-◌, ◌≡◌, refl, inl, inr, Bool, true, false, ◌&&◌, [], ◌∷◌, ◌++◌, arith, ◌==◌, if◌then◌else◌,
  Bool-cases, Bytes, length, take, drop, length-append, take-length-append,
}

-- `len(etag) >= 2 && etag[0] == '"' && etag[len(etag)-1] == '"'`
abbrev ends_quoted : Bytes → Bool
ends_quoted [] = false
ends_quoted (c ∷ []) = c == 34
ends_quoted (c ∷ d ∷ s) = ends_quoted (d ∷ s)

abbrev is_quoted : Bytes → Bool
is_quoted [] = false
is_quoted (c ∷ []) = false
is_quoted (c ∷ d ∷ s) = c == 34 && ends_quoted (d ∷ s)

unfoldable pub quote_etag : Bytes → Bytes
quote_etag etag = if is_quoted etag then etag else 34 ∷ (etag ++ (34 ∷ []))

unfoldable pub unquote_etag : Bytes → Bytes
unquote_etag etag = if is_quoted etag then take (length etag - 2) (drop 1 etag) else etag

ends_quoted-append : (s : Bytes) → ends_quoted (s ++ (34 ∷ [])) ≡ true
ends_quoted-append [] = refl
ends_quoted-append (c ∷ []) = refl
ends_quoted-append (c ∷ d ∷ s) = ends_quoted-append (d ∷ s)

is_quoted_quote : (s : Bytes) → is_quoted (34 ∷ (s ++ (34 ∷ []))) ≡ true
is_quoted_quote [] = refl
is_quoted_quote (c ∷ s) = ends_quoted-append (c ∷ s)

take_quote : (s : Bytes) → take (suc (length (s ++ (34 ∷ []))) - 2) (s ++ (34 ∷ [])) ≡ s
take_quote s =
    let same : suc (length (s ++ (34 ∷ []))) - 2 ≡ length s =
      omega (arith, length-append s (34 ∷ [])) in
    rw same (take-length-append s (34 ∷ []))

-- An ETag that was quoted is taken out of its quotes as it was without them, and quoting twice is
-- quoting once.
pub unquote_etag-quote_etag :
    (etag : Bytes)
    → (unquote_etag (quote_etag etag) ≡ unquote_etag etag)
      × (quote_etag (quote_etag etag) ≡ quote_etag etag)
unfolding quote_etag unquote_etag
unquote_etag-quote_etag etag = elim (Bool-cases (is_quoted etag)) [
  | inl e ↦ rw e (rw e (refl, refl))
  | inr e ↦ rw (e, is_quoted_quote etag) (take_quote etag, refl)
]
