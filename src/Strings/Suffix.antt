-- ===== src/Strings/Suffix.antt =====
-- Suffixes, read as prefixes of the reversed text.
use mathlib.Core.List.{reverse, reverse-append}
use pterodactyl_proxmox_back.Prelude.{
  ◌-◌, ◌≡◌, refl, sym, ap, ◌∙◌, true, [], ◌∷◌, ◌++◌, arith, &&-eq-true, Bytes, length, take, drop,
  length-append, take-append-drop, take-length-append, drop-length-append,
}
use pterodactyl_proxmox_back.Strings.{has_prefix, has_suffix, trim_suffix}
use pterodactyl_proxmox_back.Strings.Equal.{eq_bytes_iff, eq_bytes_refl, has_prefix-append}

-- A text with the prefix is the prefix and what follows it.
pub append_of_has_prefix : (s p : Bytes) → has_prefix s p ≡ true → p ++ drop (length p) s ≡ s
unfolding has_prefix
append_of_has_prefix s [] h = refl
append_of_has_prefix [] (c ∷ p) h = cc
append_of_has_prefix (d ∷ s) (c ∷ p) h = ground (arith, append_of_has_prefix s p)

drop_to_suffix :
    (x suffix : Bytes) → drop (length (x ++ suffix) - length suffix) (x ++ suffix) ≡ suffix
drop_to_suffix x suffix =
    ap (λ n. drop n (x ++ suffix)) (omega (arith, length-append x suffix))
    ∙ drop-length-append x suffix

take_to_suffix : (x suffix : Bytes) → take (length (x ++ suffix) - length suffix) (x ++ suffix) ≡ x
take_to_suffix x suffix =
    ap (λ n. take n (x ++ suffix)) (omega (arith, length-append x suffix))
    ∙ take-length-append x suffix

pub has_suffix-append : (x suffix : Bytes) → has_suffix (x ++ suffix) suffix ≡ true
unfolding has_suffix
has_suffix-append x suffix =
    rw (drop_to_suffix x suffix, eq_bytes_refl suffix) (ground (arith, length-append x suffix))

pub trim_suffix-append : (x suffix : Bytes) → trim_suffix (x ++ suffix) suffix ≡ x
unfolding trim_suffix
trim_suffix-append x suffix = rw (has_suffix-append x suffix) (take_to_suffix x suffix)

append_of_has_suffix :
    (s suffix : Bytes)
    → has_suffix s suffix ≡ true
    → take (length s - length suffix) s ++ suffix ≡ s
unfolding has_suffix
append_of_has_suffix s suffix h =
    let e = (eq_bytes_iff (drop (length s - length suffix) s) suffix).0 (&&-eq-true _ _ h).1 in
    ap (λ t. take (length s - length suffix) s ++ t) (sym e)
    ∙ take-append-drop (length s - length suffix) s

-- Reversed, a suffix is a prefix.
pub has_prefix_of_has_suffix :
    (s suffix : Bytes) → has_suffix s suffix ≡ true → has_prefix (reverse s) (reverse suffix) ≡ true
has_prefix_of_has_suffix s suffix h =
    let x = take (length s - length suffix) s in
    let e : reverse s ≡ reverse suffix ++ reverse x =
      ap reverse (sym (append_of_has_suffix s suffix h)) ∙ reverse-append x suffix in
    rw e (has_prefix-append (reverse suffix) (reverse x))

-- Texts that end in pieces of one length end alike only if the pieces are equal.
pub append_cancel_right : (x y s t : Bytes) → length s ≡ length t → x ++ s ≡ y ++ t → s ≡ t
append_cancel_right x y s t l e =
    sym (drop_to_suffix x s)
    ∙ ap (λ z. drop (length z - length s) z) e
    ∙ ap (λ n. drop (length (y ++ t) - n) (y ++ t)) l
    ∙ drop_to_suffix y t
