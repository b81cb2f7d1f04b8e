-- ===== src/Strings/Decimal/Order.antt =====
-- Numbers that are padded to one width are in the order of their texts.
use pterodactyl_proxmox_back.Prelude.{
  pos, ℕ, zero, suc, ◌+◌, ◌-◌, ◌*◌, ◌/◌, ◌%◌, ◌≤◌, ◌<◌, ◌≡◌, refl, ap, ◌∙◌, inl, inr, ◌&&◌, ◌||◌,
  [], ◌∷◌, arith, ltb, ◌==◌, Bool-cases, Bytes, length,
}
use pterodactyl_proxmox_back.Strings.{lt_bytes}
use pterodactyl_proxmox_back.Strings.Decimal.{decimal, padded, digits_of, zeros}

-- the powers of ten
abbrev pub tens : ℕ → ℕ
tens zero = 1
tens (suc w) = 10 * tens w

-- the last `w` digits of a number
fixed : ℕ → ℕ → Bytes → Bytes
fixed zero n acc = acc
fixed (suc w) n acc = fixed w (n / 10) ((b'0' + n % 10) ∷ acc)

zeros-cons : (w : ℕ) (s : Bytes) → zeros w (b'0' ∷ s) ≡ b'0' ∷ zeros w s
unfolding zeros
zeros-cons zero s = refl
zeros-cons (suc w) s = ap (◌∷◌ b'0') (zeros-cons w s)

fixed_zero : (w : ℕ) (s : Bytes) → fixed w 0 s ≡ zeros w s
unfolding fixed zeros
fixed_zero zero s = refl
fixed_zero (suc w) s = fixed_zero w (b'0' ∷ s) ∙ zeros-cons w s

by_digits :
    (n m : ℕ) (a b : Bytes)
    → (ltb (n / 10) (m / 10)
        || (n / 10 == m / 10 && lt_bytes ((b'0' + n % 10) ∷ a) ((b'0' + m % 10) ∷ b)))
      ≡ (ltb n m || (n == m && lt_bytes a b))
unfolding lt_bytes
by_digits n m a b = ground arith

lt_bytes-fixed :
    (w n m : ℕ) (a b : Bytes)
    → n < tens w
    → m < tens w
    → lt_bytes (fixed w n a) (fixed w m b) ≡ (ltb n m || (n == m && lt_bytes a b))
unfolding fixed
lt_bytes-fixed zero n m a b hn hm = ground arith
lt_bytes-fixed (suc w) n m a b hn hm =
    lt_bytes-fixed w (n / 10) (m / 10) ((b'0' + n % 10) ∷ a) ((b'0' + m % 10) ∷ b) (omega arith)
      (omega arith)
    ∙ by_digits n m a b

zeros-digits_of :
    (fuel w n : ℕ) (acc : Bytes)
    → n < fuel
    → n < tens (suc w)
    → zeros (suc w + length acc - length (digits_of fuel n acc)) (digits_of fuel n acc)
      ≡ fixed (suc w) n acc
unfolding digits_of fixed
zeros-digits_of zero w n acc hf hn = ground arith
zeros-digits_of (suc fuel) w n acc hf hn = elim (Bool-cases (ltb n 10)) [
  | inl e ↦
      let quotient : n / 10 ≡ 0 = ground arith in
      let rest : n % 10 ≡ n = ground arith in
      let width : suc w + length acc - suc (length acc) ≡ w = omega arith in
      rw (e, quotient, rest, width, fixed_zero w ((b'0' + n) ∷ acc))
  | inr e ↦ rw e (
      shorter w (ground arith) hn
        (λ v h. zeros-digits_of fuel v (n / 10) ((b'0' + n % 10) ∷ acc) (ground arith) h))
]
  where
    digits : Bytes
    digits = digits_of fuel (n / 10) ((b'0' + n % 10) ∷ acc)

    shorter :
        (w : ℕ)
        → 10 ≤ n
        → n < tens (suc w)
        → ((v : ℕ)
            → n / 10 < tens (suc v)
            → zeros (suc v + suc (length acc) - length digits) digits
              ≡ fixed (suc v) (n / 10) ((b'0' + n % 10) ∷ acc))
        → zeros (suc w + length acc - length digits) digits
          ≡ fixed w (n / 10) ((b'0' + n % 10) ∷ acc)
    shorter zero le h again = ground arith
    shorter (suc w) le h again =
        let width : suc (suc w) + length acc ≡ suc w + suc (length acc) = omega arith in
        rw width (again w (omega arith))

padded-fixed : (w n : ℕ) → n < tens (suc w) → padded (suc w) (pos n) ≡ fixed (suc w) n []
unfolding padded decimal
padded-fixed w n h =
    let none_before : suc w + length {A = ℕ} [] ≡ suc w = omega arith in
    rw none_before at (zeros-digits_of (suc n) w n [] (omega arith) h)

same_end : (n m : ℕ) → (ltb n m || (n == m && lt_bytes [] [])) ≡ ltb n m
unfolding lt_bytes
same_end n m = ground arith

-- Below the power of ten, numbers that are padded are in the order of their texts.
pub lt_bytes-padded :
    (w n m : ℕ)
    → n < tens (suc w)
    → m < tens (suc w)
    → lt_bytes (padded (suc w) (pos n)) (padded (suc w) (pos m)) ≡ ltb n m
lt_bytes-padded w n m hn hm =
    rw (padded-fixed w n hn, padded-fixed w m hm)
      (lt_bytes-fixed (suc w) n m [] [] hn hm ∙ same_end n m)
