-- ===== src/SigV4/Clock.antt =====
-- internal/sigv4/clock.go: skew and expiry. An instant is a number of nanoseconds; a
-- time.Duration is an int64, and its arithmetic wraps.
use pterodactyl_proxmox_back.Prelude.{
  ℤ, pos, negsuc, ℕ, suc, ◌-◌, ◌^◌, ◌≤◌, ◌<◌, ◌≡◌, ◌↔◌, ◌⊎◌, inl, inr, Bool, true, not, ◌&&◌, arith,
  ltb, if◌then◌else◌, Bool-cases,
}
use pterodactyl_proxmox_back.Prelude.Int.{
  pos_part, neg_part, ◌+ℤ◌, ◌-ℤ◌, ◌*ℤ◌, ◌≤ℤ◌, ◌<ℤ◌, ltb_ℤ, wrap64, wrap64_of_Int64,
}

abbrev pub second : ℤ
second = pos 1000000000

abbrev min_duration : ℤ
min_duration = negsuc (2 ^ 63 - 1)

abbrev max_duration : ℤ
max_duration = pos (2 ^ 63 - 1)

-- time.Time.Sub: the difference, or the nearest duration
saturate : ℤ → ℤ
saturate d =
    if ltb_ℤ d min_duration then min_duration else if ltb_ℤ max_duration d then max_duration else d

unfoldable pub time_sub : ℤ → ℤ → ℤ
unfolding saturate
time_sub t u = saturate (t -ℤ u)

-- `if diff < 0 { diff = -diff }`
magnitude : ℤ → ℤ
magnitude diff = if ltb_ℤ diff (pos 0) then wrap64 (pos 0 -ℤ diff) else diff

-- is the error nil
unfoldable pub check_skew : ℤ → ℤ → ℤ → Bool
unfolding magnitude time_sub
check_skew now signed_at tolerance = not (ltb_ℤ tolerance (magnitude (time_sub now signed_at)))

-- `now.After(t)` is `t < now`
unfoldable pub check_expiry : ℤ → ℤ → ℤ → ℤ → Bool
check_expiry now signed_at expires_seconds tolerance =
    let expiry = signed_at +ℤ wrap64 (expires_seconds *ℤ second) in
    not (ltb_ℤ expires_seconds (pos 1))
    && not (ltb_ℤ (expiry +ℤ tolerance) now)
    && not (ltb_ℤ (now +ℤ tolerance) signed_at)

-- The magnitude of a difference; at the smallest duration its negation overflows.
magnitude-pos :
    (n : ℕ) → magnitude (saturate (pos n)) ≡ (if ltb n (2 ^ 63) then pos n else max_duration)
unfolding magnitude saturate
magnitude-pos n = ground arith

magnitude-negsuc :
    (n : ℕ)
    → magnitude (saturate (negsuc n)) ≡ (if ltb n (2 ^ 63 - 1) then pos (suc n) else min_duration)
unfolding magnitude saturate wrap64 ◌-ℤ◌
magnitude-negsuc n = ground arith

abbrev pub Skew : ℤ → ℤ → Type 0
Skew d tolerance = ((d ≤ℤ tolerance) × (pos 0 ≤ℤ tolerance +ℤ d)) ⊎ (d ≤ℤ min_duration)

-- a tolerance short of the longest duration
abbrev pub IsTolerance : ℤ → Type 0
IsTolerance t = (pos_part t < 2 ^ 63 - 1) × (neg_part t ≤ 2 ^ 63)

abbrev Passes : ℤ → ℤ → Type 0
Passes d tolerance = not (ltb_ℤ tolerance (magnitude (saturate d))) ≡ true

Skew-pos :
    (n : ℕ) (tolerance : ℤ)
    → IsTolerance tolerance
    → Passes (pos n) tolerance ↔ Skew (pos n) tolerance
unfolding ◌+ℤ◌
Skew-pos n (pos t) w =
    rw (magnitude-pos n) (λ h. inl (ground arith, ground arith), λ h. ground arith)
Skew-pos n (negsuc t) w = rw (magnitude-pos n) (λ h. absurd (ground arith), λ h. ground arith)

Skew-negsuc :
    (n : ℕ) (tolerance : ℤ)
    → IsTolerance tolerance
    → Passes (negsuc n) tolerance ↔ Skew (negsuc n) tolerance
unfolding ◌+ℤ◌
Skew-negsuc n (pos t) w = rw (magnitude-negsuc n) (
  λ h. elim (Bool-cases (ltb n (2 ^ 63 - 1))) [
    | inl e ↦ inl (ground arith, ground arith)
    | inr e ↦ inr (ground arith)
  ],
  λ h. ground arith,
)
Skew-negsuc n (negsuc t) w = rw (magnitude-negsuc n) (λ h. inr (ground arith), λ h. ground arith)

Skew-iff : (d tolerance : ℤ) → IsTolerance tolerance → Passes d tolerance ↔ Skew d tolerance
Skew-iff (pos n) = Skew-pos n
Skew-iff (negsuc n) = Skew-negsuc n

-- The clock skew check passes exactly if the request's time lies within the tolerance of the
-- server's, before or after it, or if it lies 2 ^ 63 nanoseconds (292 years) or more in the
-- future: there the difference is cut off at the smallest duration, whose negation overflows.
-- The tolerance is any but the longest duration.
pub check_skew_iff :
    (now signed_at tolerance : ℤ)
    → IsTolerance tolerance
    → (check_skew now signed_at tolerance ≡ true) ↔ Skew (now -ℤ signed_at) tolerance
unfolding check_skew time_sub
check_skew_iff now signed_at tolerance w = Skew-iff (now -ℤ signed_at) tolerance w

-- How a presigned request's window lies: it opens `tolerance` before the signing time and
-- closes `tolerance` after `expires_seconds` have gone by.
pub record InWindow (now signed_at expires_seconds tolerance : ℤ) : Type 0 where
  pub some_time : pos 0 <ℤ expires_seconds
  pub open_since : signed_at ≤ℤ now +ℤ tolerance
  pub not_over : now ≤ℤ signed_at +ℤ expires_seconds *ℤ second +ℤ tolerance

lifetime : (e : ℤ) → pos 0 <ℤ e → e ≤ℤ pos 9223372036 → wrap64 (e *ℤ second) ≡ e *ℤ second
unfolding ◌*ℤ◌
lifetime (pos n) p h = wrap64_of_Int64 (pos n *ℤ second) (ground arith)
lifetime (negsuc n) p h = absurd (omega arith)

all_three : (a b c : Bool) → (a && b && c) ≡ true → (a ≡ true) × (b ≡ true) × (c ≡ true)
all_three a b c h = ground arith

positive→lt : (e : ℤ) → not (ltb_ℤ e (pos 1)) ≡ true → pos 0 <ℤ e
positive→lt e h = ground arith

lt→positive : (e : ℤ) → pos 0 <ℤ e → not (ltb_ℤ e (pos 1)) ≡ true
lt→positive e h = ground arith

not_ltb→le : (a b : ℤ) → not (ltb_ℤ a b) ≡ true → b ≤ℤ a
not_ltb→le a b h = ground arith

le→not_ltb : (a b : ℤ) → b ≤ℤ a → not (ltb_ℤ a b) ≡ true
le→not_ltb a b h = ground arith

-- The expiry check passes exactly if the lifetime is positive and the server's time is from the
-- signing time to the end of the lifetime, the tolerance allowed at both ends; the lifetime is at
-- most 9223372036 seconds (292 years), so that it fits a duration.
pub check_expiry_iff :
    (now signed_at expires_seconds tolerance : ℤ)
    → expires_seconds ≤ℤ pos 9223372036
    → (check_expiry now signed_at expires_seconds tolerance ≡ true)
      ↔ InWindow now signed_at expires_seconds tolerance
unfolding check_expiry
check_expiry_iff now signed_at expires tolerance h = (
  λ k.
      let (a, b, c) =
        all_three (not (ltb_ℤ expires (pos 1)))
          (not (ltb_ℤ (signed_at +ℤ wrap64 (expires *ℤ second) +ℤ tolerance) now))
          (not (ltb_ℤ (now +ℤ tolerance) signed_at)) k in
      record {
        some_time = positive→lt expires a;
        open_since = not_ltb→le (now +ℤ tolerance) signed_at c;
        not_over =
            rw (lifetime expires (positive→lt expires a) h) at
              (not_ltb→le (signed_at +ℤ wrap64 (expires *ℤ second) +ℤ tolerance) now b);
      },
  λ w. rw (
    lt→positive expires w.some_time,
    lifetime expires w.some_time h,
    le→not_ltb (signed_at +ℤ expires *ℤ second +ℤ tolerance) now w.not_over,
    le→not_ltb (now +ℤ tolerance) signed_at w.open_since,
  ),
)
