-- ===== src/Bridge/Guarded.antt =====
-- What the bridge that run puts together lets in.
use pterodactyl_proxmox_back.Config.{Config}
