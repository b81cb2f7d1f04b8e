-- ===== src/Backend/Interface.antt =====
-- internal/backend/backend.go: the engine implements the interface of the handlers.
use pterodactyl_proxmox_back.S3Api.{Backend}
use pterodactyl_proxmox_back.Backend.{Engine, State}
use pterodactyl_proxmox_back.Backend.Objects.{put_object, get_object, head_object, delete_object}
use pterodactyl_proxmox_back.Backend.Uploads.{
  create_multipart_upload, upload_part, list_upload_parts, complete_multipart_upload,
  abort_multipart_upload,
}
use pterodactyl_proxmox_back.Backend.Listing.{list_grouped}

abbrev pub engine_backend : Engine → Backend
engine_backend g = record {
  State = State g;
  put_object = put_object g;
  get_object = get_object g;
  head_object = head_object g;
  delete_object = delete_object g;
  list_objects = list_grouped g;
  create_multipart_upload = create_multipart_upload g;
  upload_part = upload_part g;
  list_parts = list_upload_parts g;
  complete_multipart_upload = complete_multipart_upload g;
  abort_multipart_upload = abort_multipart_upload g;
}
