-- ===== src/Routing/Update.antt =====
-- A member takes over the routing table that the coordinator sends.
use olricdb.Prelude.{
  ℕ, ◌%◌, ◌≡◌, refl, sym, ap, ◌∙◌, inl, inr, true, false, Option, none, some, List, [], ◌∷◌, ◌==◌,
  if◌then◌else◌, Outcome, fails, panics, ◌>>=◌, Option-cases, ==_iff, nat_eq, ok, Bool-cases, All,
  subst,
}
use olricdb.Prelude.Codec.{Codec}
use olricdb.Prelude.Dict.{Dict, lookup, insert, lookup-insert, Distinct}
use olricdb.Discovery.{Host}
use olricdb.Routing.{
  Partition, Member, Route, partition_at, set_owners, apply_routing, Error, no_owner,
  or_decode_failed, update_routing_operation, get_partition_id, get_partition, last_owner,
  locate_hkey,
}

-- The member has all the partitions that the table names.
abbrev pub Known : Dict ℕ Route → Dict ℕ Partition → Type 0
Known rt parts = All (λ e. (p : Partition) × (lookup e.0 parts ≡ some p)) rt

-- Only the owners of the partition change.
abbrev pub Owned : ℕ → List Host → Dict ℕ Partition → Dict ℕ Partition → Type 0
Owned id owners parts parts' =
    (p : Partition) × (lookup id parts ≡ some p)
    × (lookup id parts' ≡ some (record p { owners = owners }))

pub record IsApplied (rt : Dict ℕ Route) (db db' : Member) : Type 0 where
  pub named :
      (id : ℕ) (r : Route)
      → lookup id rt ≡ some r
      → Owned id r.owners db.partitions db'.partitions × Owned id r.backups db.backups db'.backups
  pub others :
      (id : ℕ)
      → lookup id rt ≡ none
      → (lookup id db'.partitions ≡ lookup id db.partitions)
        × (lookup id db'.backups ≡ lookup id db.backups)
  pub same : db'.partition_count ≡ db.partition_count

lookup-insert_same :
    (i j : ℕ) (p : Partition) (parts : Dict ℕ Partition)
    → (i == j) ≡ true
    → lookup j (insert i p parts) ≡ some p
lookup-insert_same i j p parts q = lookup-insert i j p parts ∙ rw q refl

lookup-insert_other :
    (i j : ℕ) (p : Partition) (parts : Dict ℕ Partition)
    → (i == j) ≡ false
    → lookup j (insert i p parts) ≡ lookup j parts
lookup-insert_other i j p parts q = lookup-insert i j p parts ∙ rw q refl

Known-insert :
    (i : ℕ) (p : Partition) (rt : Dict ℕ Route) (parts : Dict ℕ Partition)
    → Known rt parts
    → Known rt (insert i p parts)
Known-insert i p [] parts k = tt
Known-insert i p ((j, r) ∷ rt) parts k = (
  elim (Bool-cases (i == j)) [
    | inl q ↦ (p, lookup-insert_same i j p parts q)
    | inr q ↦ (k.0.0, lookup-insert_other i j p parts q ∙ k.0.1)
  ],
  Known-insert i p rt parts k.1,
)

-- What the rest of the table leaves of a partition that it does not name.
Owned-head :
    (i id : ℕ) (p : Partition) (owners : List Host) (parts parts' : Dict ℕ Partition)
    → lookup i parts ≡ some p
    → (i == id) ≡ true
    → lookup id parts' ≡ lookup id (insert i (record p { owners = owners }) parts)
    → Owned id owners parts parts'
Owned-head i id p owners parts parts' q e kept = (
  p,
  ap (λ k. lookup k parts) (sym ((==_iff i id).0 e)) ∙ q,
  kept ∙ lookup-insert_same i id (record p { owners = owners }) parts e,
)

Owned-tail :
    (i id : ℕ) (x : Partition) (owners : List Host) (parts parts' : Dict ℕ Partition)
    → (i == id) ≡ false
    → Owned id owners (insert i x parts) parts'
    → Owned id owners parts parts'
Owned-tail i id x owners parts parts' e (p, q, r) =
    (p, sym (lookup-insert_other i id x parts e) ∙ q, r)

set_owners_lem :
    (i : ℕ) (owners : List Host) (parts : Dict ℕ Partition) (p : Partition)
    → lookup i parts ≡ some p
    → set_owners i owners parts ≡ ok (insert i (record p { owners = owners }) parts)
unfolding set_owners partition_at
set_owners_lem i owners parts p q = rw (q, partition_at) refl

pub apply_routing_lem :
    (rt : Dict ℕ Route) (db : Member)
    → Distinct rt
    → Known rt db.partitions
    → Known rt db.backups
    → (db' : Member) × (apply_routing rt db ≡ ok db') × IsApplied rt db db'
unfolding apply_routing
apply_routing_lem [] db d k b =
    (db, refl, record { named = λ id r q. cc; others = λ id q. (refl, refl); same = refl })
apply_routing_lem ((i, r0) ∷ rt) db d ((p, q), k) ((bp, bq), b) =
    let parts = insert i (record p { owners = r0.owners }) db.partitions in
    let bparts = insert i (record bp { owners = r0.backups }) db.backups in
    let (db', e, a) =
      apply_routing_lem rt (record db { partitions = parts; backups = bparts }) d.1
        (Known-insert i (record p { owners = r0.owners }) rt db.partitions k)
        (Known-insert i (record bp { owners = r0.backups }) rt db.backups b) in
    (
      db',
      rw
          (
            set_owners_lem i r0.owners db.partitions p q,
            set_owners_lem i r0.backups db.backups bp bq,
          )
          e,
      record {
        named = λ id r h. elim (Bool-cases (i == id)) [
          | inl y ↦
              let same : r0 ≡ r = some_inj (rw y at h) in
              let kept = a.others id (ap (λ j. lookup j rt) (sym ((==_iff i id).0 y)) ∙ d.0) in
              (
                subst (λ (x : Route). Owned id x.owners db.partitions db'.partitions) same
                    (Owned-head i id p r0.owners db.partitions db'.partitions q y kept.0),
                subst (λ (x : Route). Owned id x.backups db.backups db'.backups) same
                    (Owned-head i id bp r0.backups db.backups db'.backups bq y kept.1),
              )
          | inr n ↦
              let rest = a.named id r (rw n at h) in
              (
                Owned-tail i id (record p { owners = r0.owners }) r.owners db.partitions
                    db'.partitions n rest.0,
                Owned-tail i id (record bp { owners = r0.backups }) r.backups db.backups db'.backups
                    n rest.1,
              )
        ];
        others = λ id h. elim (Bool-cases (i == id)) [
          | inl y ↦ absurd (clash (rw y at h))
          | inr n ↦
              let rest = a.others id (rw n at h) in
              (
                rest.0 ∙ lookup-insert_other i id (record p { owners = r0.owners }) db.partitions n,
                rest.1 ∙ lookup-insert_other i id (record bp { owners = r0.backups }) db.backups n,
              )
        ];
        same = a.same;
      },
    )
  where
    some_inj : {x y : Route} → some x ≡ some y → x ≡ y
    some_inj e = cc

    clash : {x : Route} → some x ≡ none → ⊥
    clash e = cc

-- The owner that comes last, said without the code.
abbrev latest : Host → List Host → Host
latest h [] = h
latest h (o ∷ os) = latest o os

abbrev pub final_owner : List Host → Outcome Error Host
final_owner [] = fails no_owner
final_owner (o ∷ os) = ok (latest o os)

final_owner_lem : (os : List Host) → last_owner os ≡ final_owner os
unfolding last_owner
final_owner_lem [] = refl
final_owner_lem (o ∷ []) = refl
final_owner_lem (o ∷ p ∷ os) = final_owner_lem (p ∷ os)

-- What the table says of a partition, and what the member had where the table is silent.
abbrev pub owners_by : Dict ℕ Route → Dict ℕ Partition → ℕ → Option (List Host)
owners_by rt parts id = elim (lookup id rt) [
  | some r ↦ some r.owners
  | none ↦ elim (lookup id parts) [ some p ↦ some p.owners | none ↦ none ]
]

-- The owner of a key by the table: without partitions, or without the key's, there is a panic.
abbrev pub located_by : Dict ℕ Route → Member → ℕ → Outcome Error Host
located_by rt db hkey =
    if db.partition_count == 0
    then panics
    else elim (owners_by rt db.partitions (hkey % db.partition_count)) [
      | some os ↦ final_owner os
      | none ↦ panics
    ]

partition_lem :
    (rt : Dict ℕ Route) (db db' : Member) (id : ℕ)
    → IsApplied rt db db'
    → (partition_at id db'.partitions >>= λ part. last_owner part.owners)
      ≡ elim (owners_by rt db.partitions id) [ some os ↦ final_owner os | none ↦ panics ]
unfolding partition_at
partition_lem rt db db' id a = elim (Option-cases (lookup id rt)) [
  | inr (r, q) ↦
      let (p, _, owned) = (a.named id r q).0 in
      rw (owned, q, partition_at) (final_owner_lem r.owners)
  | inl q ↦ elim (Option-cases (lookup id db.partitions)) [
    | inl e ↦ rw ((a.others id q).0, q, e, partition_at) refl
    | inr (p, e) ↦ rw ((a.others id q).0, q, e, partition_at) (final_owner_lem p.owners)
  ]
]

-- A member that takes over a routing table in which every partition stands once and which names
-- only partitions that the member has, succeeds: each named partition and backup gets the table's
-- owners and keeps its count, the others stay as they were. For every key, `locateHKey` then gives
-- the last of the owners that the table has for the key's partition, or of those from before where
-- the table does not name it; it fails where there are none, and it panics without partitions or
-- without the key's.
pub locate_hkey-update_routing_operation :
    (msgpack : Codec (Dict ℕ Route)) (value : List ℕ) (rt : Dict ℕ Route) (db : Member)
    → msgpack.unmarshal value ≡ some rt
    → Distinct rt
    → Known rt db.partitions
    → Known rt db.backups
    → (db' : Member) × (update_routing_operation msgpack value db ≡ ok db')
      × IsApplied rt db db'
      × ((hkey : ℕ) → locate_hkey db' false hkey ≡ located_by rt db hkey)
unfolding update_routing_operation or_decode_failed locate_hkey get_partition get_partition_id
locate_hkey-update_routing_operation msgpack value rt db q d k b =
    let (db', e, a) = apply_routing_lem rt db d k b in
    (
      db',
      rw q e,
      a,
      λ hkey. elim (Bool-cases (db.partition_count == 0)) [
        | inl z ↦ rw (a.same, z) refl
        | inr z ↦ rw (a.same, z) (partition_lem rt db db' (hkey % db.partition_count) a)
      ],
    )
