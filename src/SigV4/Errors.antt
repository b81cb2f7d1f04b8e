-- ===== src/SigV4/Errors.antt =====
-- internal/sigv4/errors.go. An AuthError is its code; the message is not modelled.
use pterodactyl_proxmox_back.Prelude.{Bytes, codes}

pub data ErrorCode : Type 0 where
  access_denied signature_does_not_match request_time_too_skewed : ErrorCode
  invalid_argument invalid_access_key_id : ErrorCode

-- two names of one code
abbrev pub missing_auth : ErrorCode
missing_auth = access_denied

abbrev pub expired_request : ErrorCode
expired_request = access_denied

unfoldable pub code_text : ErrorCode → Bytes
code_text access_denied = codes "AccessDenied"
code_text signature_does_not_match = codes "SignatureDoesNotMatch"
code_text request_time_too_skewed = codes "RequestTimeTooSkewed"
code_text invalid_argument = codes "InvalidArgument"
code_text invalid_access_key_id = codes "InvalidAccessKeyId"
