-- ===== src/S3Api/Laws.antt =====
-- internal/s3api: what the handlers do to the state of a backend, and what they promise of a body.
use pterodactyl_proxmox_back.Prelude.{
  ℤ, pos, negsuc, ℕ, ◌≤◌, ◌≡◌, refl, ◌∙◌, ◌⊎◌, inl, inr, Bool, true, false, not, ◌&&◌, ◌||◌, Option,
  none, some, List, [], ◌∷◌, arith, if◌then◌else◌, Bool-cases, Bytes, codes,
}
use pterodactyl_proxmox_back.S3Api.{
  ObjectInfo, Part, RangeSpec, BackendError, err_not_found, other_failure, Stream, Backend,
  status_for_code, Context, write_error_code,
}
use pterodactyl_proxmox_back.S3Api.Route.{
  split_path, Operation, list_parts, list_objects, get_object, head_object, unsupported, has_key,
  operation_of, operation, perform, dispatch_to, dispatch,
}
use pterodactyl_proxmox_back.Strings.{eq_bytes}
use pterodactyl_proxmox_back.Prelude.Result.{Result, ok, err}
use pterodactyl_proxmox_back.Http.{Request, header_get, query_get}
use pterodactyl_proxmox_back.S3Api.Objects.{
  query_int, page_size, range_spec, get_answer, get_ranged, get_after_head, handle_get_object,
  head_answer, handle_head_object, list_answer, start_of, handle_list_objects_v2,
}
use pterodactyl_proxmox_back.S3Api.Uploads.{
  ParseXml, valid_part_number, part_answer, handle_upload_part, parts_answer, handle_list_parts,
}
use pterodactyl_proxmox_back.Prelude.Int.{ltb_ℤ}
use pterodactyl_proxmox_back.Strings.Number.{atoi}

-- the operations that only read
abbrev IsRead : Operation → Type 0
IsRead list_parts = Unit
IsRead list_objects = Unit
IsRead get_object = Unit
IsRead head_object = Unit
IsRead unsupported = Unit
IsRead _ = ⊥

-- the choices left for a GET and for a HEAD
get-IsRead :
    (upload_id key list_type : Bool)
    → IsRead (
        if upload_id && key
        then list_parts
        else if not key && list_type
        then list_objects
        else if key
        then get_object
        else unsupported)
get-IsRead true true list_type = tt
get-IsRead true false true = tt
get-IsRead true false false = tt
get-IsRead false true list_type = tt
get-IsRead false false true = tt
get-IsRead false false false = tt

head-IsRead : (key : Bool) → IsRead (if key then head_object else unsupported)
head-IsRead true = tt
head-IsRead false = tt

operation_of-IsRead :
    (method : Bytes) (key uploads upload_id part_number list_type : Bool)
    → (method ≡ codes "GET") ⊎ (method ≡ codes "HEAD")
    → IsRead (operation_of method key uploads upload_id part_number list_type)
unfolding operation_of eq_bytes
operation_of-IsRead method key uploads upload_id part_number list_type (inl e) =
    rw e (get-IsRead upload_id key list_type)
operation_of-IsRead method key uploads upload_id part_number list_type (inr e) =
    rw e (head-IsRead key)

module _ (b : Backend) {X : Type 0} (view : b.State → X) where
  -- The calls that ask for something leave a part of the state alone.
  pub record ReadsOnly : Type 0 where
    pub get_object_reads :
        (bucket key : Bytes) (r : Option RangeSpec) (s : b.State)
        → view ((b.get_object bucket key r s).1) ≡ view s
    pub head_object_reads :
        (bucket key : Bytes) (s : b.State) → view ((b.head_object bucket key s).1) ≡ view s
    pub list_objects_reads :
        (bucket prefix delimiter start : Bytes) (n : ℤ) (s : b.State)
        → view ((b.list_objects bucket prefix delimiter start n s).1) ≡ view s
    pub list_parts_reads :
        (bucket key upload_id : Bytes) (s : b.State)
        → view ((b.list_parts bucket key upload_id s).1) ≡ view s

  get_answer_state :
      (ctx : Context) (spec : Option RangeSpec) (info : ObjectInfo)
      (a : Result BackendError (Bytes × ObjectInfo) × b.State)
      → view ((get_answer b ctx spec info a).1) ≡ view a.1
  get_answer_state ctx spec info (ok x, s) = refl
  get_answer_state ctx spec info (err e, s) = refl

  handle_get_object_reads :
      ReadsOnly
      → (ctx : Context) (range_header bucket key : Bytes) (s : b.State)
      → view ((handle_get_object b ctx range_header bucket key s).1) ≡ view s
  unfolding handle_get_object
  handle_get_object_reads reads ctx range_header bucket key s =
      after_head (b.head_object bucket key s) (reads.head_object_reads bucket key s)
    where
      ranged :
          (info : ObjectInfo) (o : Option (Option RangeSpec)) (t : b.State)
          → view t ≡ view s
          → view ((get_ranged b ctx bucket key info o t).1) ≡ view s
      ranged info none t e = e
      ranged info (some spec) t e =
          get_answer_state ctx spec info (b.get_object bucket key spec t)
          ∙ reads.get_object_reads bucket key spec t
          ∙ e

      after_head :
          (a : Result BackendError ObjectInfo × b.State)
          → view a.1 ≡ view s
          → view ((get_after_head b ctx range_header bucket key a).1) ≡ view s
      after_head (ok info, t) e = ranged info (range_spec b range_header info.size) t e
      after_head (err x, t) e = e

  head_answer_state :
      (a : Result BackendError ObjectInfo × b.State) → view ((head_answer b a).1) ≡ view a.1
  head_answer_state (ok info, s) = refl
  head_answer_state (err err_not_found, s) = refl
  head_answer_state (err other_failure, s) = refl

  list_answer_state :
      (ctx : Context) (bucket prefix : Bytes) (n : ℤ)
      (a : Result BackendError (List ObjectInfo × List Bytes × Bool) × b.State)
      → view ((list_answer b ctx bucket prefix n a).1) ≡ view a.1
  list_answer_state ctx bucket prefix n (ok x, s) = refl
  list_answer_state ctx bucket prefix n (err e, s) = refl

  parts_answer_state :
      (ctx : Context) (bucket key upload_id : Bytes) (a : Result BackendError (List Part) × b.State)
      → view ((parts_answer b ctx bucket key upload_id a).1) ≡ view a.1
  parts_answer_state ctx bucket key upload_id (ok x, s) = refl
  parts_answer_state ctx bucket key upload_id (err e, s) = refl

  perform_reads :
      ReadsOnly
      → (parse : ParseXml) (o : Operation) (ctx : Context) (r : Request) (bucket key : Bytes)
        (body : Stream) (s : b.State)
      → IsRead o
      → view ((perform b parse o ctx r bucket key body s).1) ≡ view s
  unfolding handle_head_object handle_list_objects_v2 handle_list_parts
  perform_reads reads parse list_parts ctx r bucket key body s h =
      let upload_id = query_get r (codes "uploadId") in
      parts_answer_state ctx bucket key upload_id (b.list_parts bucket key upload_id s)
      ∙ reads.list_parts_reads bucket key upload_id s
  perform_reads reads parse list_objects ctx r bucket key body s h =
      let prefix = query_get r (codes "prefix") in
      let delimiter = query_get r (codes "delimiter") in
      let start =
        start_of b (query_get r (codes "start-after")) (query_get r (codes "continuation-token")) in
      let n = page_size (query_int r.query (codes "max-keys") (pos 1000)) in
      list_answer_state ctx bucket prefix n (b.list_objects bucket prefix delimiter start n s)
      ∙ reads.list_objects_reads bucket prefix delimiter start n s
  perform_reads reads parse get_object ctx r bucket key body s h =
      handle_get_object_reads reads ctx (header_get r (codes "Range")) bucket key s
  perform_reads reads parse head_object ctx r bucket key body s h =
      head_answer_state (b.head_object bucket key s) ∙ reads.head_object_reads bucket key s
  perform_reads reads parse unsupported ctx r bucket key body s h = refl
  perform_reads reads parse o ctx r bucket key body s h = elim h [ ]

  dispatch_to_reads :
      ReadsOnly
      → (parse : ParseXml) (ctx : Context) (r : Request) (body : Stream) (p : Bytes × Bytes)
        (s : b.State)
      → (r.method ≡ codes "GET") ⊎ (r.method ≡ codes "HEAD")
      → view ((dispatch_to b parse ctx r body p s).1) ≡ view s
  unfolding operation
  dispatch_to_reads reads parse ctx r body ([], key) s h = refl
  dispatch_to_reads reads parse ctx r body (c ∷ bucket, key) s h =
      perform_reads reads parse (operation r key) ctx r (c ∷ bucket) key body s (
        operation_of-IsRead r.method (not (eq_bytes key [])) (has_key r (codes "uploads"))
          (has_key r (codes "uploadId")) (has_key r (codes "partNumber"))
          (has_key r (codes "list-type")) h)

  -- A request with the method GET or HEAD leaves a part of the state of the backend as it was, if
  -- the backend's own reads do.
  pub dispatch_reads :
      (parse : ParseXml) (ctx : Context) (r : Request) (body : Stream) (s : b.State)
      → ReadsOnly
      → (r.method ≡ codes "GET") ⊎ (r.method ≡ codes "HEAD")
      → view ((dispatch b parse ctx r body s).1) ≡ view s
  unfolding dispatch
  dispatch_reads parse ctx r body s reads h =
      dispatch_to_reads reads parse ctx r body (split_path r.path) s h

module _ (b : Backend) where
  part_answer_state :
      (ctx : Context) (a : Result BackendError Bytes × b.State) → (part_answer b ctx a).1 ≡ a.1
  part_answer_state ctx (ok x, s) = refl
  part_answer_state ctx (err e, s) = refl

  number_cases :
      (o : Option ℤ)
      → (valid_part_number o ≡ none)
        ⊎ ((n : ℕ) × (o ≡ some (pos n))
            × (valid_part_number o ≡ some (pos n))
            × (1 ≤ n)
            × (n ≤ 10000))
  unfolding valid_part_number
  number_cases none = inl refl
  number_cases (some (negsuc n)) = inl (ground arith)
  number_cases (some (pos n)) =
      elim (Bool-cases (ltb_ℤ (pos n) (pos 1) || ltb_ℤ (pos 10000) (pos n))) [
        | inl e ↦ inl (rw e refl)
        | inr e ↦ inr (n, refl, rw e refl, ground arith, ground arith)
      ]

  -- A part is handed to the backend under the number that the query gives it if that is between 1
  -- and 10,000; else the answer is 400 and the backend is not called.
  pub handle_upload_part_checked :
      (ctx : Context) (r : Request) (bucket key : Bytes) (body : Stream) (s : b.State)
      → (((handle_upload_part b ctx r bucket key body s).1 ≡ s)
          × ((handle_upload_part b ctx r bucket key body s).0.status ≡ 400))
        ⊎ ((n : ℕ) × (atoi (query_get r (codes "partNumber")) ≡ some (pos n))
            × (1 ≤ n)
            × (n ≤ 10000)
            × ((handle_upload_part b ctx r bucket key body s).1
                ≡ (b.upload_part bucket key (query_get r (codes "uploadId")) (pos n) body s).1))
  unfolding handle_upload_part write_error_code status_for_code eq_bytes
  handle_upload_part_checked ctx r bucket key body s =
      elim (number_cases (atoi (query_get r (codes "partNumber")))) [
        | inl e ↦ inl (rw e refl, rw e refl)
        | inr (n, o, e, l, h) ↦ inr (
          n,
          o,
          l,
          h,
          rw e (
              part_answer_state ctx
                (b.upload_part bucket key (query_get r (codes "uploadId")) (pos n) body s)),
        )
      ]
