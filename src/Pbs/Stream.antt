-- ===== src/Pbs/Stream.antt =====
-- internal/pbs/client.go, RestoreStream: what a restore writes, from its first byte on.
use pterodactyl_proxmox_back.Prelude.{
  ℕ, zero, suc, ◌*◌, Bool, true, false, none, some, List, [], ◌∷◌, Bytes, codes,
}
use pterodactyl_proxmox_back.Pbs.{
  PbsError, no_stream, StreamStart, not_started, too_late, read_failed, ended, opened,
  classify_error, is_transient,
}
use pterodactyl_proxmox_back.Pbs.Client.{
  Cli, Client, archive_name, more_tries, base_delay, program, snapshot_id, env, with_namespace,
  capped,
}
use pterodactyl_proxmox_back.Prelude.Result.{Result, ok, err}

unfoldable pub stream_args : Bytes → Bytes → ℕ → Bytes → List Bytes
stream_args backup_type backup_id t namespace = with_namespace namespace (
    codes "restore"
    ∷ snapshot_id backup_type backup_id t
    ∷ archive_name
    ∷ codes "-"
    ∷ codes "--crypt-mode"
    ∷ codes "none"
    ∷ [])

module _ (cli : Cli) (environ : List Bytes) (c : Client) where
  abbrev pub StreamAnswer : Type 0
  StreamAnswer = Result PbsError Bytes × cli.World

  abbrev started : List Bytes → StreamStart × cli.World → StreamAnswer
  started args (not_started, w) = (err no_stream, w)
  started args (too_late, w) = (err no_stream, w)
  started args (read_failed, w) = (err no_stream, w)
  started args (ended none stderr, w) = (ok [], w)
  started args (ended (some e) stderr, w) = (err (classify_error args e stderr), w)
  started args (opened content, w) = (ok content, w)

  unfoldable pub start_restore_stream : List Bytes → cli.World → StreamAnswer
  start_restore_stream args w = started args (cli.stream (program c) args (env environ c) w)

  abbrev stream_waited : (cli.World → StreamAnswer) → PbsError → Bool × cli.World → StreamAnswer
  stream_waited again e (true, w) = again w
  stream_waited again e (false, w) = (err e, w)

  unfoldable pub next_stream : (cli.World → StreamAnswer) → ℕ → StreamAnswer → StreamAnswer
  next_stream again delay (ok content, w) = (ok content, w)
  next_stream again delay (err e, w) = elim (is_transient e) [
    | true ↦ stream_waited again e (cli.wait delay w)
    | false ↦ (err e, w)
  ]

  -- the loop of RestoreStream: `left` tries may follow this one
  unfoldable pub stream_retry : ℕ → ℕ → List Bytes → cli.World → StreamAnswer
  unfolding next_stream
  stream_retry zero delay args w = start_restore_stream args w
  stream_retry (suc left) delay args w =
      next_stream (stream_retry left (capped cli environ c (delay * 3)) args) delay
        (start_restore_stream args w)

  unfoldable pub restore_stream : Bytes → Bytes → ℕ → Bytes → cli.World → StreamAnswer
  restore_stream backup_type backup_id t namespace w =
      stream_retry more_tries base_delay (stream_args backup_type backup_id t namespace) w
