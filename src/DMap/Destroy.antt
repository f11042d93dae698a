-- ===== src/DMap/Destroy.antt =====
-- dmap_destroy.go: a DMap is removed from every member.
use native.Mathlib.Omega.{arith}
use olricdb.Prelude.{
  ℕ, zero, suc, ◌+◌, ◌<◌, ◌≤◌, ◌≡◌, refl, sym, ap, subst, ◌∙◌, inl, inr, Bool, true, false, not,
  ◌&&◌, none, some, List, [], ◌∷◌, ◌==◌, ==_iff, length, if◌then◌else◌, nat_eq, Text, text_eq,
  text_beq, text_beq_iff, ok, fails, panics, Bool-cases, Option-cases,
}
use olricdb.Prelude.Dict.{
  Dict, lookup, insert, erase, lookup-insert, lookup-erase, Distinct, erase-absent,
}
use olricdb.Protocol.Code.{Message, zero_message, success}
use olricdb.Protocol.Code.OpCode
use olricdb.Storage.Store.{Storage}
use olricdb.Discovery.{Host}
use olricdb.DMap.{
  DMap, Shard, Node, Env, Error, timed_out, close_failed, destroy_failed, Result, and_then,
  and_then-ok, Kind, primary_copy, backup_copy, shards, set_shard, request_to,
}
use olricdb.DMap.Put.{write_response}
use olricdb.DMap.Delete.{first_error}
use olricdb.DMap.Stale.{close_dmap, IsCounted}
use olricdb.DMap.Fsck.{each_part}

-- What a removal finds outside the node: whether the system takes a storage's memory back, and
-- whether the snapshot destroys a DMap.
pub record Remover : Type 0 where
  pub closes : Storage → Bool
  pub destroys : Kind → ℕ → Text → Bool

-- `destroy` on a DMap that the partition has. The count stays.
unfoldable pub destroy_found : Remover → Kind → ℕ → Shard → Text → DMap → Node → Result Unit
unfolding set_shard
destroy_found r kind id s name dm n =
    if not (r.closes dm.str)
    then (n, fails close_failed)
    else if n.config.with_snapshot && not (r.destroys kind id name)
    then (
      set_shard kind id (record s { dmaps = insert name (close_dmap dm) s.dmaps }) n,
      fails destroy_failed,
    )
    else (set_shard kind id (record s { dmaps = erase name s.dmaps }) n, ok tt)

unfoldable pub destroy_in : Remover → Kind → Text → ℕ → Node → Result Unit
unfolding destroy_found shards
destroy_in r kind name id n = elim (lookup id (shards kind n)) [
  | none ↦ (n, panics)
  | some s ↦ elim (lookup name s.dmaps) [
    | none ↦ (n, ok tt)
    | some dm ↦ destroy_found r kind id s name dm n
  ]
]

-- The primary copy, and the backup if there are backups.
unfoldable pub destroy_part : Remover → Text → ℕ → Node → Result Unit
unfolding destroy_in
destroy_part r name id n =
    and_then (destroy_in r primary_copy name id n) λ n1 _.
      if n1.config.backup_count == 0 then (n1, ok tt) else destroy_in r backup_copy name id n1

unfoldable pub destroy_dmap_operation : Remover → (Error → List ℕ) → Node → Message → Result Message
unfolding each_part destroy_part write_response
destroy_dmap_operation r text n req =
    write_response text req (each_part (destroy_part r req.dmap) 0 n.config.partition_count n)

-- The goroutines of `destroyDMap`, one after the other: all the requests are sent.
unfoldable pub destroy_on : Env → Node → List Host → Text → Result Unit
unfolding request_to first_error
destroy_on env n [] name = (n, ok tt)
destroy_on env n (h ∷ hs) name =
    let (n1, r) =
      request_to env n h.name OpCode.destroy_dmap (record zero_message { dmap = name }) in
    first_error r (destroy_on env n1 hs name)

-- `members` are those of the discovery; `late` says that the bootstrap ran into its deadline.
unfoldable pub destroy_dmap : Env → Node → Bool → List Host → Text → Result Unit
unfolding destroy_on
destroy_dmap env n late members name =
    if late then (n, fails timed_out) else destroy_on env n members name

unfoldable pub ex_destroy_operation :
    Env → (Error → List ℕ) → Node → Bool → List Host → Message → Result Message
unfolding destroy_dmap write_response
ex_destroy_operation env text n late members req =
    write_response text req (destroy_dmap env n late members req.dmap)

-- A partition that satisfies `P`.
abbrev pub Has : (Shard → Type 0) → Kind → ℕ → Node → Type 0
Has P kind id n = (s : Shard) × (lookup id (shards kind n) ≡ some s) × P s

abbrev pub Lacks : Text → Shard → Type 0
Lacks name s = lookup name s.dmaps ≡ none

Has-insert :
    (P : Shard → Type 0) (id id' : ℕ) (s : Shard) (m : Dict ℕ Shard)
    → P s
    → (s' : Shard) × (lookup id' m ≡ some s') × P s'
    → (s' : Shard) × (lookup id' (insert id s m) ≡ some s') × P s'
Has-insert P id id' s m p (s', q, p') = elim (Bool-cases (id == id')) [
  | inl e ↦ (s, lookup-insert id id' s m ∙ rw e refl, p)
  | inr e ↦ (s', lookup-insert id id' s m ∙ rw e q, p')
]

-- A partition that is set keeps what holds of it and of the others.
Has-set_shard :
    (P : Shard → Type 0) (kind kind' : Kind) (id id' : ℕ) (s : Shard) (n : Node)
    → P s
    → Has P kind' id' n
    → Has P kind' id' (set_shard kind id s n)
unfolding set_shard shards
Has-set_shard P primary_copy primary_copy id id' s n p h = Has-insert P id id' s n.primary p h
Has-set_shard P primary_copy backup_copy id id' s n p h = h
Has-set_shard P backup_copy primary_copy id id' s n p h = h
Has-set_shard P backup_copy backup_copy id id' s n p h = Has-insert P id id' s n.backup p h

abbrev pub Present : Kind → ℕ → Node → Type 0
Present kind id n = Has (λ _. Unit) kind id n

module _ (r : Remover) (name : Text) (closes : (str : Storage) → r.closes str ≡ true) where
  -- A removal keeps the partitions, and the DMap does not come back.
  record IsStep (n n' : Node) : Type 0 where
    config : n'.config ≡ n.config
    present : (kind : Kind) (id : ℕ) → Present kind id n → Present kind id n'
    gone : (kind : Kind) (id : ℕ) → Has (Lacks name) kind id n → Has (Lacks name) kind id n'

  IsStep-trans : (n n1 n2 : Node) → IsStep n n1 → IsStep n1 n2 → IsStep n n2
  IsStep-trans n n1 n2 a b = record {
    config = b.config ∙ a.config;
    present = λ kind id h. b.present kind id (a.present kind id h);
    gone = λ kind id h. b.gone kind id (a.gone kind id h);
  }

  IsStep-refl : (n : Node) → IsStep n n
  IsStep-refl n = record { config = refl; present = λ kind id h. h; gone = λ kind id h. h }

  without : Shard → Shard
  without s = record s { dmaps = erase name s.dmaps }

  without-Lacks : (s : Shard) → Lacks name (without s)
  unfolding without
  without-Lacks s = lookup-erase name name s.dmaps ∙ rw ((text_beq_iff name name).1 refl) refl

  set_config :
      (kind : Kind) (id : ℕ) (s : Shard) (n : Node) → (set_shard kind id s n).config ≡ n.config
  unfolding set_shard
  set_config primary_copy id s n = refl
  set_config backup_copy id s n = refl

  without-IsStep :
      (kind : Kind) (id : ℕ) (s : Shard) (n : Node) → IsStep n (set_shard kind id (without s) n)
  without-IsStep kind id s n = record {
    config = set_config kind id (without s) n;
    present = λ k i h. Has-set_shard (λ _. Unit) kind k id i (without s) n tt h;
    gone = λ k i h. Has-set_shard (Lacks name) kind k id i (without s) n (without-Lacks s) h;
  }

  set_present :
      (kind : Kind) (id : ℕ) (s : Shard) (n : Node)
      → Has (Lacks name) kind id (set_shard kind id (without s) n)
  unfolding set_shard shards
  set_present primary_copy id s n = (
    without s,
    lookup-insert id id (without s) n.primary ∙ rw ((==_iff id id).1 refl) refl,
    without-Lacks s,
  )
  set_present backup_copy id s n = (
    without s,
    lookup-insert id id (without s) n.backup ∙ rw ((==_iff id id).1 refl) refl,
    without-Lacks s,
  )

  destroy_in_lem :
      (kind : Kind) (id : ℕ) (n : Node)
      → n.config.with_snapshot ≡ false
      → Present kind id n
      → (n' : Node) × (destroy_in r kind name id n ≡ (n', ok tt))
        × IsStep n n'
        × Has (Lacks name) kind id n'
  unfolding destroy_in destroy_found without
  destroy_in_lem kind id n mem (s, q, _) = elim (Option-cases (lookup name s.dmaps)) [
    | inl a ↦ (n, rw (q, destroy_in, a) refl, IsStep-refl n, (s, q, a))
    | inr (dm, a) ↦ (
      set_shard kind id (without s) n,
      rw (q, destroy_in, a, closes dm.str, mem, destroy_found) refl,
      without-IsStep kind id s n,
      set_present kind id s n,
    )
  ]

  -- Both copies of a partition.
  Gone : ℕ → Node → Type 0
  Gone id n =
      Has (Lacks name) primary_copy id n
      × ((n.config.backup_count == 0) ≡ false → Has (Lacks name) backup_copy id n)

  destroy_part_lem :
      (id : ℕ) (n : Node)
      → n.config.with_snapshot ≡ false
      → ((kind : Kind) → Present kind id n)
      → (n' : Node) × (destroy_part r name id n ≡ (n', ok tt)) × IsStep n n' × Gone id n'
  unfolding destroy_part Gone
  destroy_part_lem id n mem here =
      let (n1, q1, s1, g1) = destroy_in_lem primary_copy id n mem (here primary_copy) in
      elim (Bool-cases (n1.config.backup_count == 0)) [
        | inl z ↦ (n1, and_then-ok _ _ n1 tt q1 ∙ rw z refl, s1, (g1, λ x. absurd (ground arith)))
        | inr z ↦
            let (n2, q2, s2, g2) =
              destroy_in_lem backup_copy id n1 (ap (λ c. c.with_snapshot) s1.config ∙ mem)
                (s1.present backup_copy id (here backup_copy)) in
            (
              n2,
              and_then-ok _ _ n1 tt q1 ∙ rw z q2,
              IsStep-trans n n1 n2 s1 s2,
              (s2.gone primary_copy id g1, λ _. g2),
            )
      ]

  Gone-kept : (id : ℕ) (n n' : Node) → IsStep n n' → Gone id n → Gone id n'
  unfolding Gone
  Gone-kept id n n' s g = (
    s.gone primary_copy id g.0,
    λ z. s.gone backup_copy id (g.1 (ap (λ c. c.backup_count == 0) (sym s.config) ∙ z)),
  )

  destroy_parts_lem :
      (count id : ℕ) (n : Node)
      → n.config.with_snapshot ≡ false
      → ((kind : Kind) (i : ℕ) → i < id + count → Present kind i n)
      → (n' : Node) × (each_part (destroy_part r name) id count n ≡ (n', ok tt))
        × IsStep n n'
        × ((i : ℕ) → id ≤ i → i < id + count → Gone i n')
  unfolding each_part
  destroy_parts_lem zero id n mem here = (n, refl, IsStep-refl n, λ i le lt. absurd (omega arith))
  destroy_parts_lem (suc count) id n mem here =
      let (n1, q1, s1, g1) = destroy_part_lem id n mem (λ kind. here kind id (omega arith)) in
      let (n2, q2, s2, g2) =
        destroy_parts_lem count (id + 1) n1 (ap (λ c. c.with_snapshot) s1.config ∙ mem)
          (λ kind i lt. s1.present kind i (here kind i (omega arith))) in
      (
        n2,
        and_then-ok _ _ n1 tt q1 ∙ q2,
        IsStep-trans n n1 n2 s1 s2,
        λ i le lt. elim (Bool-cases (i == id)) [
          | inl e ↦ subst (λ j. Gone j n2) (sym ((==_iff i id).0 e)) (Gone-kept id n1 n2 s2 g1)
          | inr e ↦ g2 i (ground (arith, ==_iff i id)) (omega arith)
        ],
      )

  -- On a node without a snapshot, whose system takes the memory of every storage back, and which
  -- has every partition and backup, `destroyDMapOperation` answers without an error, and no
  -- partition has the DMap afterwards, nor any backup if the node is configured with backups.
  pub destroy_dmap_operation_lem :
      (text : Error → List ℕ) (n : Node) (req : Message)
      → req.dmap ≡ name
      → n.config.with_snapshot ≡ false
      → ((kind : Kind) (i : ℕ) → i < n.config.partition_count → Present kind i n)
      → (n' : Node) × (destroy_dmap_operation r text n req ≡ (n', ok (success req)))
        × ((i : ℕ) → i < n.config.partition_count → Has (Lacks name) primary_copy i n')
        × ((i : ℕ)
            → i < n.config.partition_count
            → (n'.config.backup_count == 0) ≡ false
            → Has (Lacks name) backup_copy i n')
  unfolding destroy_dmap_operation write_response Gone
  destroy_dmap_operation_lem text n req named mem here =
      let (n', q, s, g) =
        destroy_parts_lem n.config.partition_count 0 n mem
          (λ kind i lt. here kind i (omega arith)) in
      (
        n',
        ap
              (λ x.
                write_response text req (each_part (destroy_part r x) 0 n.config.partition_count n))
              named
            ∙ ap (write_response text req) q,
        λ i lt. (g i (omega arith) (omega arith)).0,
        λ i lt z. (g i (omega arith) (omega arith)).1 z,
      )

length-erase_present :
    {V : Type 0} (k : Text) (v : V) (m : Dict Text V)
    → Distinct m
    → lookup k m ≡ some v
    → length (erase k m) + 1 ≡ length m
length-erase_present k v [] d q = absurd (ground arith)
length-erase_present k v ((j, w) ∷ m) d q = elim (Bool-cases (text_beq j k)) [
  | inl e ↦ rw e (
      ap (λ l. length l + 1)
        (erase-absent k m (ap (λ i. lookup i m) (sym ((text_beq_iff j k).0 e)) ∙ d.0))
      ∙ omega arith)
  | inr e ↦ rw e (omega (arith, length-erase_present k v m d.1 (rw e at q)))
]

-- Where a partition's count is the number of its DMaps, it is not so any longer after the removal
-- of a DMap that the partition has succeeds.
pub destroy_found_uncounted :
    (r : Remover) (kind : Kind) (id : ℕ) (s : Shard) (name : Text) (dm : DMap) (n : Node)
    → r.closes dm.str ≡ true
    → n.config.with_snapshot ≡ false
    → lookup name s.dmaps ≡ some dm
    → Distinct s.dmaps
    → IsCounted s
    → (s' : Shard) × (destroy_found r kind id s name dm n ≡ (set_shard kind id s' n, ok tt))
      × ¬ IsCounted s'
unfolding destroy_found
destroy_found_uncounted r kind id s name dm n closes mem has distinct counted = (
  record s { dmaps = erase name s.dmaps },
  rw (closes, mem) refl,
  λ c. omega (arith, c, counted, length-erase_present name dm s.dmaps distinct has),
)
