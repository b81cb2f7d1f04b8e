-- ===== src/S3Api/Tests.antt =====
-- The theorems of the handlers, at a backend that keeps one object.
use pterodactyl_proxmox_back.Prelude.{
  pos, negsuc, ◌+◌, ◌-◌, ◌*◌, ◌≡◌, refl, sym, ap, ◌∙◌, false, none, some, List, [], arith, Bytes,
  codes, length, length-take-drop,
}
use pterodactyl_proxmox_back.S3Api.Toy.{info_of, slice_of, one_object}
use pterodactyl_proxmox_back.Prelude.Int.{pos_part, ◌+ℤ◌, ◌-ℤ◌}
use pterodactyl_proxmox_back.Prelude.Result.{Result, ok, err}
use pterodactyl_proxmox_back.Http.{Request}
use pterodactyl_proxmox_back.S3Api.{ObjectInfo, RangeSpec, BackendError, Stream, Context}
use pterodactyl_proxmox_back.S3Api.Objects.{handle_get_object}
use pterodactyl_proxmox_back.S3Api.Uploads.{ParseXml}
use pterodactyl_proxmox_back.S3Api.Range.{
  suffix_range, closed_range, range_from, parse_range, Within, parse_range-Within,
}
use pterodactyl_proxmox_back.S3Api.Length.{Slices, Announces, handle_get_object-Announces}
use pterodactyl_proxmox_back.S3Api.Dates.{format_millis, format_http}
use pterodactyl_proxmox_back.Strings.{has_prefix, trim_prefix, cut, contains}
use pterodactyl_proxmox_back.Strings.Number.{digit_value, parse_int}
use pterodactyl_proxmox_back.Strings.Decimal.{decimal, padded}
use pterodactyl_proxmox_back.Pbs.Time.{second, civil, format_time}

abbrev ctx : Context
ctx = record { path = codes "/b/k"; request_id = codes "q" }

abbrev request : Bytes → List (Bytes × List Bytes) → Request
request method query = record {
  method = method;
  path = codes "/b/k";
  host = codes "h";
  url_host = [];
  header = [];
  query = query;
}

abbrev body : Stream
body = record { content = codes "abc"; is_broken = false }

abbrev parse : ParseXml
parse s = none

-- the second bytes of three
parse_range-Within_example : Within (pos 3) (pos 1, pos 2)
unfolding parse_range range_from closed_range parse_int ◌-ℤ◌ cut trim_prefix has_prefix contains
    digit_value
parse_range-Within_example = parse_range-Within (codes "bytes=1-7") 2 refl

-- a suffix of an empty object is taken as a range that is none
empty_suffix : parse_range (codes "bytes=-5") (pos 0) ≡ some (pos 0, negsuc 0)
unfolding parse_range suffix_range parse_int ◌-ℤ◌ cut trim_prefix has_prefix contains digit_value
empty_suffix = refl

length_slice :
    (r : RangeSpec)
    → Within (pos 3) (r.start, r.end_)
    → pos (length (slice_of (codes "xyz") (some r))) ≡ (r.end_ -ℤ r.start +ℤ pos 1)
unfolding ◌-ℤ◌ ◌+ℤ◌
length_slice r w = ground (
  arith,
  length-take-drop (pos_part r.end_ + 1 - pos_part r.start) (pos_part r.start) (codes "xyz"),
)

-- the content of an answer
abbrev content_or : Bytes → Result BackendError (Bytes × ObjectInfo) × Bytes → Bytes
content_or d (ok (content, i), t) = content
content_or d (err e, t) = d

one_object-Slices : Slices one_object (codes "b") (codes "k") (info_of (codes "xyz")) (codes "xyz")
one_object-Slices = (
  (λ content i t e. ap (λ p. pos (length p)) (ap (content_or []) (sym e))),
  (λ r content i t w e. ap (λ p. pos (length p)) (ap (content_or []) (sym e)) ∙ length_slice r w),
)

-- the first two bytes of three
handle_get_object-Announces_example :
    Announces one_object (
      (handle_get_object one_object ctx
        (codes "bytes=0-1")
        (codes "b")
        (codes "k")
        (codes "xyz")).0)
handle_get_object-Announces_example =
    handle_get_object-Announces one_object ctx (codes "bytes=0-1") (codes "b") (codes "k")
      (info_of (codes "xyz")) 2 (codes "xyz") (codes "xyz") refl refl one_object-Slices

format_http_1700000000 :
    format_http ((62167219200 + 1700000000) * second) ≡ codes "Tue, 14 Nov 2023 22:13:20 GMT"
unfolding format_http civil padded decimal
format_http_1700000000 = refl

format_millis_1700000000 :
    format_millis ((62167219200 + 1700000000) * second + 45000000)
    ≡ codes "2023-11-14T22:13:20.045Z"
unfolding format_millis format_time civil padded decimal
format_millis_1700000000 = refl
