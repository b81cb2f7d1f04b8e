-- ===== src/Store/Multipart/Parts.antt =====
-- internal/store/multipart.go: the parts of an upload are listed by their numbers, and a part that
-- is uploaded again takes the place of the one before.
use pterodactyl_proxmox_back.Prelude.{
  ℤ, pos, ℕ, ◌<◌, ◌≡◌, refl, ap, ◌∙◌, Bool, true, false, not, ◌||◌, some, List, [], ◌∷◌, ◌++◌,
  arith, ltb, if◌then◌else◌, Bytes, All,
}
use pterodactyl_proxmox_back.Prelude.Int.{◌<ℤ◌, ltb_ℤ}
use pterodactyl_proxmox_back.Bolt.{Bolt}
use pterodactyl_proxmox_back.Bolt.Lists.{insert_pair, Above, IsSorted}
use pterodactyl_proxmox_back.Bolt.Scan.{with_prefix, with_prefix-IsSorted, with_prefix-insert_pair}
use pterodactyl_proxmox_back.Prelude.Result.{ok}
use pterodactyl_proxmox_back.Store.{Json, RoundTrips, Db, put_in}
use pterodactyl_proxmox_back.Store.Keys.{part_key, lt_bytes-part_key}
use pterodactyl_proxmox_back.Store.Multipart.{
  PartInfo, parts_of, put_part_tx, put_part, read_parts, list_parts, Pairs,
}
use pterodactyl_proxmox_back.Strings.{eq_bytes, lt_bytes, has_prefix}
use pterodactyl_proxmox_back.Strings.Equal.{eq_bytes_iff, lt_bytes_irrefl, lt_bytes_total}
use pterodactyl_proxmox_back.Store.Multipart.Cascade.{list_parts-with_prefix}
use pterodactyl_proxmox_back.Store.Update.{stepped, update-ok}
use pterodactyl_proxmox_back.Strings.Decimal.{padded}

has_prefix-append_cons : (a s : Bytes) (c : ℕ) → has_prefix (a ++ (c ∷ s)) (a ++ (c ∷ [])) ≡ true
unfolding has_prefix
has_prefix-append_cons [] s c = ground arith
has_prefix-append_cons (x ∷ a) s c = ground (arith, has_prefix-append_cons a s c)

has_prefix-part_key :
    (upload_id : Bytes) (n : ℤ) → has_prefix (part_key upload_id n) (parts_of upload_id) ≡ true
unfolding part_key
has_prefix-part_key upload_id n = has_prefix-append_cons upload_id (padded 8 n) b'/'

abbrev ComesBefore : PartInfo → PartInfo → Type 0
ComesBefore p q = p.part_number <ℤ q.part_number

-- the numbers grow
abbrev pub Ascending : List PartInfo → Type 0
Ascending [] = Unit
Ascending (p ∷ ps) = All (λ q. ComesBefore p q) ps × Ascending ps

-- the parts with one more, in the place of its number
unfoldable pub insert_part : PartInfo → List PartInfo → List PartInfo
insert_part p [] = p ∷ []
insert_part p (q ∷ ps) =
    let rest = insert_part p ps in
    if ltb_ℤ p.part_number q.part_number
    then p ∷ q ∷ ps
    else if ltb_ℤ q.part_number p.part_number
    then q ∷ rest
    else p ∷ ps

later :
    (p q : PartInfo) (n m : ℕ)
    → p.part_number ≡ pos n
    → q.part_number ≡ pos m
    → ltb n m ≡ true
    → ComesBefore p q
later p q n m e f h = rw (e, f) (ground arith)

-- how the keys of two parts compare
key_order :
    (upload_id : Bytes) (n m : ℕ) (p q : PartInfo)
    → n < 100000000
    → m < 100000000
    → p.part_number ≡ pos n
    → q.part_number ≡ pos m
    → (lt_bytes (part_key upload_id (pos n)) (part_key upload_id (pos m))
        ≡ ltb_ℤ p.part_number q.part_number)
      × (eq_bytes (part_key upload_id (pos n)) (part_key upload_id (pos m))
          ≡ not (ltb_ℤ p.part_number q.part_number || ltb_ℤ q.part_number p.part_number))
key_order upload_id n m p q ln lm e f =
    let j = part_key upload_id (pos n) in
    let k = part_key upload_id (pos m) in
    rw (e, f)
      (
        lt_bytes-part_key upload_id n m ln lm ∙ ground arith,
        ground (
          arith,
          lt_bytes-part_key upload_id n m ln lm,
          lt_bytes-part_key upload_id m n lm ln,
          lt_bytes_total j k,
          eq_bytes_iff j k,
          ap (part_key upload_id),
          lt_bytes_irrefl k,
        ),
      )

module _ (bolt : Bolt) (json : Json PartInfo) where
  -- the pairs hold these parts of an upload: each is at the key of its number, marshalled
  abbrev pub Numbered : Bytes → Pairs → List PartInfo → Type 0
  Numbered upload_id [] [] = Unit
  Numbered upload_id ((k, v) ∷ l) (p ∷ ps) =
      ((n : ℕ) × (k ≡ part_key upload_id (pos n))
        × (n < 100000000)
        × (p.part_number ≡ pos n)
        × (json.unmarshal v ≡ some p))
      × Numbered upload_id l ps
  Numbered upload_id _ _ = ⊥

  read_parts-Numbered :
      (upload_id : Bytes) (l : Pairs) (ps : List PartInfo)
      → Numbered upload_id l ps
      → read_parts bolt json [] l ≡ ok ps
  unfolding read_parts has_prefix
  read_parts-Numbered upload_id [] [] h = refl
  read_parts-Numbered upload_id [] (p ∷ ps) h = elim h [ ]
  read_parts-Numbered upload_id (e ∷ l) [] h = elim h [ ]
  read_parts-Numbered upload_id ((k, v) ∷ l) (p ∷ ps) ((n, e, lt, q, j), h) =
      rw (j, read_parts-Numbered upload_id l ps h)

  All-ComesBefore :
      (upload_id k : Bytes) (n : ℕ) (p : PartInfo) (l : Pairs) (ps : List PartInfo)
      → k ≡ part_key upload_id (pos n)
      → n < 100000000
      → p.part_number ≡ pos n
      → Above k l
      → Numbered upload_id l ps
      → All (λ q. ComesBefore p q) ps
  All-ComesBefore upload_id k n p [] [] e lt q a h = tt
  All-ComesBefore upload_id k n p [] (r ∷ ps) e lt q a h = elim h [ ]
  All-ComesBefore upload_id k n p (x ∷ l) [] e lt q a h = elim h [ ]
  All-ComesBefore upload_id k n p ((j, w) ∷ l) (r ∷ ps) e lt q a ((m, f, lm, s, u), h) = (
    later p r n m q s (rw (e, f, lt_bytes-part_key upload_id n m lt lm) at a.0),
    All-ComesBefore upload_id k n p l ps e lt q a.1 h,
  )

  Numbered-Ascending :
      (upload_id : Bytes) (l : Pairs) (ps : List PartInfo)
      → IsSorted l
      → Numbered upload_id l ps
      → Ascending ps
  Numbered-Ascending upload_id [] [] s h = tt
  Numbered-Ascending upload_id [] (p ∷ ps) s h = elim h [ ]
  Numbered-Ascending upload_id (e ∷ l) [] s h = elim h [ ]
  Numbered-Ascending upload_id ((k, v) ∷ l) (p ∷ ps) s ((n, e, lt, q, j), h) =
      (All-ComesBefore upload_id k n p l ps e lt q s.0 h, Numbered-Ascending upload_id l ps s.1 h)

  -- a pair that holds a part
  abbrev One : Bytes → Bytes → Bytes → PartInfo → Type 0
  One upload_id k v p =
      (n : ℕ) × (k ≡ part_key upload_id (pos n))
      × (n < 100000000)
      × (p.part_number ≡ pos n)
      × (json.unmarshal v ≡ some p)

  placed :
      (upload_id : Bytes) (p q : PartInfo) (v w j k : Bytes) (l m : Pairs) (ps qs : List PartInfo)
      (before after : Bool)
      → One upload_id j v p
      → One upload_id k w q
      → Numbered upload_id l ps
      → Numbered upload_id m qs
      → Numbered upload_id
          (if before
            then (j, v) ∷ (k, w) ∷ l
            else if not (before || after)
            then (j, v) ∷ l
            else (k, w) ∷ m)
          (if before then p ∷ q ∷ ps else if after then q ∷ qs else p ∷ ps)
  placed upload_id p q v w j k l m ps qs true after one other h g = (one, (other, h))
  placed upload_id p q v w j k l m ps qs false true one other h g = (other, g)
  placed upload_id p q v w j k l m ps qs false false one other h g = (one, h)

  Numbered-insert_part :
      (upload_id : Bytes) (n : ℕ) (p : PartInfo) (v : Bytes) (l : Pairs) (ps : List PartInfo)
      → n < 100000000
      → p.part_number ≡ pos n
      → json.unmarshal v ≡ some p
      → Numbered upload_id l ps
      → Numbered upload_id (insert_pair (part_key upload_id (pos n)) v l) (insert_part p ps)
  unfolding insert_pair insert_part
  Numbered-insert_part upload_id n p v [] [] ln e j h = ((n, refl, ln, e, j), tt)
  Numbered-insert_part upload_id n p v [] (q ∷ ps) ln e j h = elim h [ ]
  Numbered-insert_part upload_id n p v (x ∷ l) [] ln e j h = elim h [ ]
  Numbered-insert_part upload_id n p v ((k, w) ∷ l) (q ∷ ps) ln e j ((m, f, lm, g, u), h) =
      let order = key_order upload_id n m p q ln lm e g in
      rw (f, order.0, order.1)
        (placed upload_id p q v w (part_key upload_id (pos n)) (part_key upload_id (pos m)) l
          (insert_pair (part_key upload_id (pos n)) v l) ps (insert_part p ps)
          (ltb_ℤ p.part_number q.part_number) (ltb_ℤ q.part_number p.part_number)
          (n, refl, ln, e, j) (m, refl, lm, g, u) h
          (Numbered-insert_part upload_id n p v l ps ln e j h))

  -- The parts of an upload are listed in the order of their numbers. (What the database has of the
  -- upload are the parts `ps` under the keys of their numbers, which are below 100,000,000.)
  pub list_parts-Ascending :
      (upload_id : Bytes) (db : Db bolt) (ps : List PartInfo)
      → Numbered upload_id (with_prefix (parts_of upload_id) (bolt.pairs db.multipart_parts)) ps
      → (list_parts bolt json upload_id db ≡ ok ps) × Ascending ps
  list_parts-Ascending upload_id db ps h =
      let l = with_prefix (parts_of upload_id) (bolt.pairs db.multipart_parts) in
      (
        list_parts-with_prefix json bolt upload_id db ∙ read_parts-Numbered upload_id l ps h,
        Numbered-Ascending upload_id l ps
            (with_prefix-IsSorted (parts_of upload_id) (bolt.pairs db.multipart_parts)
              (bolt.pairs_sorted db.multipart_parts))
            h,
      )

  put_part_tx-ok :
      (k v : Bytes) (d : Db bolt) {e : Db bolt}
      → put_part_tx bolt json k v d ≡ ok e
      → bolt.pairs e.multipart_parts ≡ insert_pair k v (bolt.pairs d.multipart_parts)
  unfolding put_part_tx put_in
  put_part_tx-ok k v d h = ground (arith, bolt.pairs_put k v d.multipart_parts)

  put_part-ok :
      (upload_id v : Bytes) (p : PartInfo) (db : Db bolt)
      → json.marshal p ≡ some v
      → (put_part bolt json upload_id p db).0 ≡ ok tt
      → bolt.pairs ((put_part bolt json upload_id p db).1).multipart_parts
        ≡ insert_pair (part_key upload_id p.part_number) v (bolt.pairs db.multipart_parts)
  unfolding put_part
  put_part-ok upload_id v p db j h =
      rw (put_part, j)
        (put_part_tx-ok (part_key upload_id p.part_number) v (stepped bolt db) (
          update-ok bolt (put_part_tx bolt json (part_key upload_id p.part_number) v) db
            (rw (put_part, j) at h)))

  -- A part that was put is listed in the place of its number, where it replaces the part with that
  -- number, and the other parts of the upload are listed as before. (What the database has of the
  -- upload are the parts `ps` under the keys of their numbers, below 100,000,000 like that of the
  -- part, and JSON gives the part back as it was.)
  pub list_parts-put_part :
      (upload_id v : Bytes) (n : ℕ) (p : PartInfo) (db : Db bolt) (ps : List PartInfo)
      → Numbered upload_id (with_prefix (parts_of upload_id) (bolt.pairs db.multipart_parts)) ps
      → n < 100000000
      → p.part_number ≡ pos n
      → RoundTrips json p v
      → (put_part bolt json upload_id p db).0 ≡ ok tt
      → list_parts bolt json upload_id ((put_part bolt json upload_id p db).1)
        ≡ ok (insert_part p ps)
  list_parts-put_part upload_id v n p db ps h ln e j d =
      let b = bolt.pairs db.multipart_parts in
      let key = part_key upload_id (pos n) in
      let put =
        put_part-ok upload_id v p db j.0 d ∙ ap (λ x. insert_pair (part_key upload_id x) v b) e in
      list_parts-with_prefix json bolt upload_id ((put_part bolt json upload_id p db).1)
      ∙ read_parts-Numbered upload_id
          (with_prefix (parts_of upload_id)
            (bolt.pairs ((put_part bolt json upload_id p db).1).multipart_parts))
          (insert_part p ps)
          (rw
            (
              put,
              with_prefix-insert_pair key v (parts_of upload_id) b
                  (bolt.pairs_sorted db.multipart_parts) (has_prefix-part_key upload_id (pos n)),
            )
            (Numbered-insert_part upload_id n p v (with_prefix (parts_of upload_id) b) ps ln e j.1
              h))
