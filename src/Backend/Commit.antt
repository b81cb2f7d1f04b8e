-- ===== src/Backend/Commit.antt =====
-- internal/backend/backend.go: a commit leaves every key with the snapshot it points at.
use mathlib.Core.Path.{subst}
use pterodactyl_proxmox_back.Prelude.{
  ◌≡◌, refl, sym, ap, ◌∙◌, ◌≢◌, ◌⊎◌, inl, inr, true, ◌&&◌, some, arith, if◌then◌else◌, Bool-cases,
  Option-cases, &&-eq-true, Bytes,
}
use pterodactyl_proxmox_back.Prelude.Result.{Result, ok, ok_injective}
use pterodactyl_proxmox_back.Store.{StoreError, RoundTrips, Db}
use pterodactyl_proxmox_back.Store.Objects.{ObjectMapping, put_object_mapping, get_object_mapping}
use pterodactyl_proxmox_back.Disk.{Disk}
use pterodactyl_proxmox_back.Strings.{eq_bytes}
use pterodactyl_proxmox_back.Strings.Split.{NoByte}
use pterodactyl_proxmox_back.Backend.{Engine, State}
use pterodactyl_proxmox_back.Backend.Laws.{Snap, snapshot_of}
use pterodactyl_proxmox_back.Strings.Equal.{eq_bytes_iff}

module _ (g : Engine) where
  abbrev pub mapping_at : Bytes → Bytes → State g → Result StoreError ObjectMapping
  mapping_at bucket key s = get_object_mapping g.bolt g.object_json bucket key s.db

  -- JSON gives a mapping back as it was, if it can write it: a mapping whose texts are valid UTF-8.
  -- It refuses to write a time beyond year 9999.
  abbrev pub Storable : ObjectMapping → Type 0
  Storable m = (v : Bytes) → g.object_json.marshal m ≡ some v → g.object_json.unmarshal v ≡ some m

  -- a mapping that was put has been written
  pub Storable-RoundTrips :
      (m : ObjectMapping) (db : Db g.bolt)
      → Storable m
      → (put_object_mapping g.bolt g.object_json m db).0 ≡ ok tt
      → (v : Bytes) × RoundTrips g.object_json m v
  unfolding put_object_mapping
  Storable-RoundTrips m db json h = elim (Option-cases (g.object_json.marshal m)) [
    | inl n ↦ absurd (ground arith)
    | inr (v, e) ↦ (v, (e, json v e))
  ]

module _ (g : Engine) (Snapshot : Snap → Disk × g.host.Server → Type 0) where
  -- every mapping has its snapshot,
  abbrev pub Backed : State g → Type 0
  Backed s =
      (b k : Bytes) (m : ObjectMapping)
      → NoByte 0 b
      → mapping_at g b k s ≡ ok m
      → Snapshot (snapshot_of m) s.world

  -- and none that another key has
  abbrev pub Distinct : State g → Type 0
  Distinct s =
      (b k c j : Bytes) (m n : ObjectMapping)
      → NoByte 0 b
      → NoByte 0 c
      → mapping_at g b k s ≡ ok m
      → mapping_at g c j s ≡ ok n
      → snapshot_of m ≡ snapshot_of n
      → (b ≡ c) × (k ≡ j)

  abbrev pub Sound : State g → Type 0
  Sound s = Backed s × Distinct s

  -- the same mappings, and no snapshot less
  pub Sound-of_same :
      (s t : State g)
      → ((b k : Bytes) → mapping_at g b k t ≡ mapping_at g b k s)
      → ((x : Snap) → Snapshot x s.world → Snapshot x t.world)
      → Sound s
      → Sound t
  Sound-of_same s t same grown (backed, distinct) = (
    λ b k m hb h. grown (snapshot_of m) (backed b k m hb (sym (same b k) ∙ h)),
    λ b k c j m n hb hc h i e.
        distinct b k c j m n hb hc (sym (same b k) ∙ h) (sym (same c j) ∙ i) e,
  )

  -- one mapping is put, over the one of its key
  abbrev pub Put : State g → State g → Bytes → Bytes → ObjectMapping → Type 0
  Put s t b k m =
      (c j : Bytes)
      → NoByte 0 c
      → mapping_at g c j t ≡ (if eq_bytes b c && eq_bytes k j then ok m else mapping_at g c j s)

  pub another : (b k c j : Bytes) → b ≡ c → k ≡ j → (eq_bytes b c && eq_bytes k j) ≡ true
  another b k c j p q = rw ((eq_bytes_iff b c).1 p, (eq_bytes_iff k j).1 q) refl

  -- where a mapping is from
  pub origin :
      (s t : State g) (b k : Bytes) (m : ObjectMapping) (c j : Bytes) (n : ObjectMapping)
      → Put s t b k m
      → NoByte 0 c
      → mapping_at g c j t ≡ ok n
      → ((b ≡ c) × (k ≡ j) × (m ≡ n)) ⊎ ((mapping_at g c j s ≡ ok n) × ¬ ((b ≡ c) × (k ≡ j)))
  origin s t b k m c j n put hc h = elim (Bool-cases (eq_bytes b c && eq_bytes k j)) [
    | inl e ↦
        let (eb, ek) = &&-eq-true (eq_bytes b c) (eq_bytes k j) e in
        inl (
          (eq_bytes_iff b c).0 eb,
          (eq_bytes_iff k j).0 ek,
          ok_injective (sym (put c j hc ∙ rw e refl) ∙ h),
        )
    | inr e ↦ inr (sym (put c j hc ∙ rw e refl) ∙ h, λ (p, q). cc (e, another b k c j p q))
  ]

  -- a put of a mapping whose snapshot is there and was not before
  pub Sound-of_Put :
      (s t : State g) (b k : Bytes) (m : ObjectMapping)
      → Put s t b k m
      → ((x : Snap) → Snapshot x s.world → Snapshot x t.world)
      → Snapshot (snapshot_of m) t.world
      → ((x : Snap) → Snapshot x s.world → snapshot_of m ≢ x)
      → Sound s
      → Sound t
  Sound-of_Put s t b k m put grown there fresh (backed, distinct) = (
    (λ c j n hc h. elim (origin s t b k m c j n put hc h) [
      | inl (eb, ek, e) ↦ subst (λ x. Snapshot (snapshot_of x) t.world) e there
      | inr (f, other) ↦ grown (snapshot_of n) (backed c j n hc f)
    ]),
    (λ c j d i n o hc hd h1 h2 e. elim (origin s t b k m c j n put hc h1) [
      | inl (eb, ek, en) ↦ elim (origin s t b k m d i o put hd h2) [
        | inl (fb, fk, fn) ↦ (sym eb ∙ fb, sym ek ∙ fk)
        | inr (f, other) ↦
            elim (fresh (snapshot_of o) (backed d i o hd f) (ap snapshot_of en ∙ e)) [ ]
      ]
      | inr (f, other) ↦ elim (origin s t b k m d i o put hd h2) [
        | inl (fb, fk, fn) ↦
            elim (fresh (snapshot_of n) (backed c j n hc f) (ap snapshot_of fn ∙ sym e)) [ ]
        | inr (f2, other2) ↦ distinct c j d i n o hc hd f f2 e
      ]
    ]),
  )
