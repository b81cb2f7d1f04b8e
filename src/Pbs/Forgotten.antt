-- ===== src/Pbs/Forgotten.antt =====
-- internal/pbs/client.go, Forget: it can be repeated.
use mathlib.Core.Path.{subst}
use pterodactyl_proxmox_back.Prelude.{
  ℕ, zero, suc, ◌*◌, ◌≡◌, refl, sym, ap, ◌⊎◌, inl, inr, Bool, true, false, List, Bool-cases, Bytes,
}
use pterodactyl_proxmox_back.Prelude.Result.{ok, err}
use pterodactyl_proxmox_back.Pbs.{PbsError, is_not_found, is_transient}
use pterodactyl_proxmox_back.Pbs.Client.{
  Output, Cli, Client, more_tries, base_delay, forget_args, Answer, run, capped, waited, next_try,
  retry, run_with_retry, without_output, not_found_is_done, forget,
}

module _ (cli : Cli) (environ : List Bytes) (c : Client) where
  -- an answer is that of a try, after which there may have been a wait
  LastRun : List Bytes → Answer cli environ c → Type 0
  LastRun args (a, after) =
      (v : cli.World) × (u : cli.World) × (run cli environ c args v ≡ (a, u))
      × ((after ≡ u) ⊎ ((delay : ℕ) × (after ≡ (cli.wait delay u).1)))

  step-LastRun :
      (args : List Bytes) (w : cli.World) (again : cli.World → Answer cli environ c) (delay : ℕ)
      → ((x : cli.World) → LastRun args (again x))
      → (a : Answer cli environ c) → run cli environ c args w ≡ a
      → LastRun args (next_try cli environ c again delay a)
  unfolding next_try waited LastRun
  step-LastRun args w again delay rest (ok out, u) r = (w, u, r, inl refl)
  step-LastRun args w again delay rest (err e, u) r = elim (Bool-cases (is_transient e)) [
    | inl t ↦ rw (next_try, t) (cut_off (cli.wait delay u) refl)
    | inr t ↦ rw (next_try, t) (w, u, r, inl refl)
  ]
    where
      cut_off :
          (b : Bool × cli.World)
          → cli.wait delay u ≡ b
          → LastRun args (waited cli environ c again e b)
      cut_off (true, x) q = rest x
      cut_off (false, x) q = (w, u, r, inr (delay, ap (λ p. p.1) (sym q)))

  retry-LastRun :
      (left delay : ℕ) (args : List Bytes) (w : cli.World)
      → LastRun args (retry cli environ c left delay args w)
  unfolding retry LastRun
  retry-LastRun zero delay args w = (w, (run cli environ c args w).1, refl, inl refl)
  retry-LastRun (suc left) delay args w =
      step-LastRun args w (retry cli environ c left (capped cli environ c (delay * 3)) args) delay
        (retry-LastRun left (capped cli environ c (delay * 3)) args) (run cli environ c args w) refl

  -- What the documentation of the command says of forgetting one snapshot: it is gone when the
  -- command succeeds or does not find it, a snapshot that is gone is not found and that is no
  -- failure of the connection, and it does not come back with time.
  pub record Forgets (args : List Bytes) (Gone : cli.World → Type 0) : Type 0 where
    pub gone_when_done :
        (w u : cli.World) (out : Output) → run cli environ c args w ≡ (ok out, u) → Gone u
    pub gone_when_not_found :
        (w u : cli.World) (e : PbsError)
        → run cli environ c args w ≡ (err e, u)
        → is_not_found e ≡ true
        → Gone u
    pub not_found_when_gone :
        (w : cli.World)
        → Gone w
        → (e : PbsError) × (u : cli.World) × (run cli environ c args w ≡ (err e, u))
          × (is_not_found e ≡ true)
          × (is_transient e ≡ false)
          × Gone u
    pub gone_after_wait : (delay : ℕ) (w : cli.World) → Gone w → Gone ((cli.wait delay w).1)

  module _ (backup_type backup_id : Bytes) (t : ℕ) (namespace : Bytes)
      (Gone : cli.World → Type 0) where
    abbrev args : List Bytes
    args = forget_args backup_type backup_id t namespace

    waited_for :
        Forgets args Gone
        → (x u : cli.World) → Gone u
        → (x ≡ u) ⊎ ((delay : ℕ) × (x ≡ (cli.wait delay u).1))
        → Gone x
    waited_for f x u g (inl s) = subst Gone (sym s) g
    waited_for f x u g (inr (delay, s)) = subst Gone (sym s) (f.gone_after_wait delay u g)

    Gone-not_found_is_done :
        (a : Answer cli environ c) (after : cli.World)
        → Forgets args Gone
        → LastRun args a
        → not_found_is_done cli environ c (without_output cli environ c a) ≡ (ok tt, after)
        → Gone after
    unfolding LastRun
    Gone-not_found_is_done (ok out, x) after f (v, u, r, at_end) h =
        subst Gone (ap (λ p. p.1) h) (waited_for f x u (f.gone_when_done v u out r) at_end)
    Gone-not_found_is_done (err e, x) after f (v, u, r, at_end) h =
        elim (Bool-cases (is_not_found e)) [
          | inl n ↦
              subst Gone (ap (λ p. p.1) h)
                (waited_for f x u (f.gone_when_not_found v u e r n) at_end)
          | inr n ↦ cc (rw n at h)
        ]

    forget-Gone :
        (w : cli.World)
        → Forgets args Gone
        → Gone w
        → (again : cli.World) × (forget cli environ c backup_type backup_id t namespace w
            ≡ (ok tt, again))
          × Gone again
    unfolding forget run_with_retry retry next_try
    forget-Gone w f g =
        let (e, u, r, n, tr, gone) = f.not_found_when_gone w g in
        (u, rw (r, next_try, tr, n) refl, gone)

    -- A snapshot that was forgotten is gone, and forgetting it again succeeds and leaves it gone, if
    -- the command does what its documentation says.
    pub forget_idempotent :
        (w after : cli.World)
        → Forgets args Gone
        → forget cli environ c backup_type backup_id t namespace w ≡ (ok tt, after)
        → Gone after
          × ((again : cli.World) × (forget cli environ c backup_type backup_id t namespace after
                ≡ (ok tt, again))
              × Gone again)
    unfolding forget run_with_retry
    forget_idempotent w after f h =
        let gone =
          Gone-not_found_is_done (run_with_retry cli environ c args w) after f
            (retry-LastRun more_tries base_delay args w) h in
        (gone, forget-Gone after f gone)
