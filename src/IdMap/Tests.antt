-- ===== src/IdMap/Tests.antt =====
-- The id and namespace maps at concrete keys.
use pterodactyl_proxmox_back.Samples.{toy_sha}
use pterodactyl_proxmox_back.Prelude.{◌≡◌, refl, [], ◌∷◌, ◌++◌, arith, codes, All}
use pterodactyl_proxmox_back.Strings.{has_prefix, has_suffix, trim_suffix, split}
use pterodactyl_proxmox_back.IdMap.{
  known_extensions, strip_known_extensions, sanitize_backup_id, group_id_from_key,
  sanitize_namespace,
}
use pterodactyl_proxmox_back.IdMap.Valid.{IsBackupId, sanitize_backup_id-IsBackupId}
use pterodactyl_proxmox_back.IdMap.Clean.{sanitize_backup_id_clean}

uuid_key : group_id_from_key toy_sha (codes "1a2b-3c/9f.tar.gz") ≡ codes "1a2b-3c"
unfolding group_id_from_key strip_known_extensions has_suffix has_prefix
uuid_key = refl

odd_key : sanitize_backup_id toy_sha (codes "a b") ≡ codes "a_b-e3e3e3e3"
unfolding sanitize_backup_id strip_known_extensions has_suffix has_prefix
odd_key = refl

dotted_bucket : sanitize_namespace (codes ".org..team.") ≡ codes "org/team"
unfolding sanitize_namespace
dotted_bucket = refl

clean_id : IsBackupId (codes "ab-1")
clean_id = (omega arith, omega arith, grind arith)

sanitize_backup_id-IsBackupId_example : IsBackupId (sanitize_backup_id toy_sha (codes "a b"))
sanitize_backup_id-IsBackupId_example = sanitize_backup_id-IsBackupId toy_sha (codes "a b")

sanitize_backup_id_clean_example :
    All
      (λ ext. sanitize_backup_id toy_sha (codes "ab-1" ++ ext) ≡ codes "ab-1")
      ([] ∷ known_extensions)
sanitize_backup_id_clean_example = sanitize_backup_id_clean toy_sha (codes "ab-1") clean_id

same_id : sanitize_backup_id toy_sha (codes "ab.zip") ≡ sanitize_backup_id toy_sha (codes "ab.tar")
unfolding sanitize_backup_id strip_known_extensions has_suffix has_prefix trim_suffix
same_id = refl

segments : split b'/' (codes "s/b.tar.gz") ≡ codes "s" ∷ codes "b.tar.gz" ∷ []
unfolding split
segments = refl
