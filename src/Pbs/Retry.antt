-- ===== src/Pbs/Retry.antt =====
-- internal/pbs/client.go, runWithRetry: how often a command is run, and whose answer is returned.
use pterodactyl_proxmox_back.Prelude.{
  ℕ, zero, suc, ◌*◌, ◌≤◌, ◌<◌, ◌≡◌, refl, ap, ◌∙◌, ◌↔◌, inl, inr, Bool, true, false, List, arith,
  Bool-cases, Bytes,
}
use pterodactyl_proxmox_back.Prelude.Result.{ok, err}
use pterodactyl_proxmox_back.Pbs.{PbsError, is_transient}
use pterodactyl_proxmox_back.Pbs.Client.{
  Output, Cli, Client, more_tries, base_delay, Answer, run, capped, waited, next_try, retry,
  run_with_retry,
}

module _ (cli : Cli) (environ : List Bytes) (c : Client) where
  -- `n` tries, the first of them followed by the wait `delay`, failed for a transient reason and
  -- were waited for, and lead from a world to another
  abbrev pub Tried : List Bytes → ℕ → ℕ → cli.World → cli.World → Type 0
  Tried args zero delay w v = w ≡ v
  Tried args (suc n) delay w v =
      (e : PbsError) × (u : cli.World) × (x : cli.World) × (run cli environ c args w ≡ (err e, u))
      × (is_transient e ≡ true)
      × (cli.wait delay u ≡ (true, x))
      × Tried args n (capped cli environ c (delay * 3)) x v

  abbrev Succeeds : ℕ → ℕ → List Bytes → Output → cli.World → cli.World → Type 0
  Succeeds left delay args out w after =
      (n : ℕ) × (v : cli.World) × (n ≤ left)
      × Tried args n delay w v
      × (run cli environ c args v ≡ (ok out, after))

  tripled : ℕ → ℕ
  tripled delay = capped cli environ c (delay * 3)

  -- one step of the loop, where `again` is known of the rest
  step-Succeeds :
      (left delay : ℕ) (args : List Bytes) (out : Output) (w after : cli.World)
      → ((x : cli.World)
          → retry cli environ c left (tripled delay) args x ≡ (ok out, after)
          → Succeeds left (tripled delay) args out x after)
      → (a : Answer cli environ c) → run cli environ c args w ≡ a
      → next_try cli environ c (retry cli environ c left (tripled delay) args) delay a
        ≡ (ok out, after)
      → Succeeds (suc left) delay args out w after
  unfolding next_try waited tripled
  step-Succeeds left delay args out w after again (ok o, u) r k = (0, w, omega arith, refl, r ∙ k)
  step-Succeeds left delay args out w after again (err e, u) r k =
      elim (Bool-cases (is_transient e)) [
        | inl t ↦ cut_off (cli.wait delay u) t refl (rw (next_try, t) at k)
        | inr t ↦ cc (rw (next_try, t) at k)
      ]
    where
      cut_off :
          (b : Bool × cli.World)
          → is_transient e ≡ true
          → cli.wait delay u ≡ b
          → waited cli environ c (retry cli environ c left (tripled delay) args) e b
            ≡ (ok out, after)
          → Succeeds (suc left) delay args out w after
      cut_off (true, x) t q k =
          let (n, v, le, tr, last) = again x k in
          (suc n, v, omega arith, (e, u, x, r, t, q, tr), last)
      cut_off (false, x) t q k = cc

  retry-Succeeds :
      (left delay : ℕ) (args : List Bytes) (out : Output) (w after : cli.World)
      → retry cli environ c left delay args w ≡ (ok out, after)
      → Succeeds left delay args out w after
  unfolding retry tripled
  retry-Succeeds zero delay args out w after h = (0, w, omega arith, refl, h)
  retry-Succeeds (suc left) delay args out w after h =
      step-Succeeds left delay args out w after
        (λ x. retry-Succeeds left (tripled delay) args out x after) (run cli environ c args w) refl
        h

  Succeeds-retry :
      (n left delay : ℕ) (args : List Bytes) (out : Output) (w v after : cli.World)
      → n ≤ left
      → Tried args n delay w v
      → run cli environ c args v ≡ (ok out, after)
      → retry cli environ c left delay args w ≡ (ok out, after)
  unfolding retry next_try waited
  Succeeds-retry zero zero delay args out w v after le t h = ap (run cli environ c args) t ∙ h
  Succeeds-retry zero (suc left) delay args out w v after le t h = rw (t, h)
  Succeeds-retry (suc n) zero delay args out w v after le t h = ground arith
  Succeeds-retry (suc n) (suc left) delay args out w v after le (e, u, x, r, q, p, t) h =
      rw (r, next_try, q, p)
        (Succeeds-retry n left (capped cli environ c (delay * 3)) args out x v after (omega arith) t
          h)

  -- A command succeeds exactly if one of three tries does, and every try before it has failed for
  -- a transient reason and its wait has passed: a quarter of a second, then three quarters.
  pub run_with_retry_iff :
      (args : List Bytes) (out : Output) (w after : cli.World)
      → (run_with_retry cli environ c args w ≡ (ok out, after)) ↔ (
          (n : ℕ) × (v : cli.World) × (n < 3)
          × Tried args n base_delay w v
          × (run cli environ c args v ≡ (ok out, after)))
  unfolding run_with_retry
  run_with_retry_iff args out w after = (
    (λ h.
        let (n, v, le, t, last) = retry-Succeeds more_tries base_delay args out w after h in
        (n, v, omega arith, t, last)),
    (λ (n, v, le, t, last).
        Succeeds-retry n more_tries base_delay args out w v after (omega arith) t last),
  )
