-- ===== src/DMap/Fsck/Move.antt =====
-- A DMap on its way: what the sender drops, and what the receiver has afterwards.
use native.Mathlib.Omega.{arith}
use olricdb.Prelude.{
  ℕ, ◌+◌, ◌-◌, ◌^◌, ◌==◌, if◌then◌else◌, ◌≡◌, ◌⊎◌, inl, inr, refl, ap, ◌∙◌, Bool, true, false, none,
  some, List, [], ◌∷◌, ==_iff, nat_eq, Text, text_eq, text_beq, text_beq_iff, Outcome, ok, fails,
  panics, stuck, Bool-cases, Option-cases, length,
}
use olricdb.Prelude.Dict.{Dict, lookup, insert, erase, lookup-insert, lookup-erase}
use olricdb.Prelude.Codec.{IsLossless}
use olricdb.Protocol.Code.{Message, zero_message, success}
use olricdb.Storage.Memory
use olricdb.Storage.Table.{Table}
use olricdb.Storage.Store.{Storage, get}
use olricdb.Storage.Store.Invariant.{IsSound}
use olricdb.Storage.Transport.{export, import}
use olricdb.Storage.Transport.RoundTrip.{import-export}
use olricdb.Discovery.{Host}
use olricdb.DMap.{
  DMap, Shard, Node, Env, Error, Request, Result, Kind, primary_copy, backup_copy, request_to,
  or_transport, shards, set_shard, count_down,
}
use olricdb.DMap.Put.{write_response}
use olricdb.DMap.Stale.{IsCounted}
use olricdb.Snapshot.{LogOp}
use olricdb.DMap.Fsck.{
  DmapBox, Mover, move_op, is_locked, drop_dmap, after_move, send_box, send_export, move_in,
  move_dmap, merge_into, merge_dmaps, merge_owned, move_dmap_operation,
}

pub shards-set_shard :
    (kind : Kind) (id : ℕ) (s : Shard) (n : Node)
    → lookup id (shards kind (set_shard kind id s n)) ≡ some s
unfolding shards set_shard
shards-set_shard primary_copy id s n =
    lookup-insert id id s n.primary ∙ rw ((==_iff id id).1 refl) refl
shards-set_shard backup_copy id s n =
    lookup-insert id id s n.backup ∙ rw ((==_iff id id).1 refl) refl

abbrev pub move_request : Kind → Host → List ℕ → Request
move_request kind owner value = record {
  addr = owner.name;
  op = move_op kind;
  message = record zero_message { value = value };
}

pub shards-set_shard_others :
    (kind : Kind) (id j : ℕ) (s : Shard) (n : Node)
    → (id == j) ≡ false
    → lookup j (shards kind (set_shard kind id s n)) ≡ lookup j (shards kind n)
unfolding shards set_shard
shards-set_shard_others primary_copy id j s n q = lookup-insert id j s n.primary ∙ rw q refl
shards-set_shard_others backup_copy id j s n q = lookup-insert id j s n.backup ∙ rw q refl

abbrev pub other : Kind → Kind
other primary_copy = backup_copy
other backup_copy = primary_copy

shards-other :
    (kind : Kind) (id : ℕ) (s : Shard) (n : Node)
    → shards (other kind) (set_shard kind id s n) ≡ shards (other kind) n
unfolding shards set_shard
shards-other primary_copy id s n = refl
shards-other backup_copy id s n = refl

shards_sent :
    (kind : Kind) (n : Node) (rs : List Request)
    → shards kind (record n { sent = rs }) ≡ shards kind n
unfolding shards
shards_sent primary_copy n rs = refl
shards_sent backup_copy n rs = refl

sent-set_shard :
    (kind : Kind) (id : ℕ) (s : Shard) (n : Node) → (set_shard kind id s n).sent ≡ n.sent
unfolding set_shard
sent-set_shard primary_copy id s n = refl
sent-set_shard backup_copy id s n = refl

module _ (env : Env) (mv : Mover) (kind : Kind) (id : ℕ) (name : Text) (owner : Host) where
  -- The new owner has taken the exported storage, and the node has lost this DMap of this partition,
  -- and nothing else.
  pub record IsTaken (s : Shard) (n n' : Node) (dm : DMap) : Type 0 where
    pub payload : List ℕ
    pub value : List ℕ
    pub answer : Message
    pub here : lookup name s.dmaps ≡ some dm
    pub exported : export mv.transport dm.str ≡ ok payload
    pub boxed :
        mv.box.marshal (record { part_id = id; name = name; payload = payload }) ≡ some value
    pub taken : or_transport (env.network (move_request kind owner value)) ≡ ok answer
    pub sent : n'.sent ≡ move_request kind owner value ∷ n.sent
    pub left : Shard
    pub partition : lookup id (shards kind n') ≡ some left
    pub owners : left.part.owners ≡ s.part.owners
    pub count : left.part.count ≡ (if s.part.count == 0 then 2 ^ 32 - 1 else s.part.count - 1)
    pub dmaps :
        (x : Text) → lookup x left.dmaps ≡ (if text_beq name x then none else lookup x s.dmaps)
    pub others : (j : ℕ) → (id == j) ≡ false → lookup j (shards kind n') ≡ lookup j (shards kind n)
    pub other_kind : shards (other kind) n' ≡ shards (other kind) n

  -- The node has its partitions as before, or the DMap went to an owner who has taken it.
  abbrev pub Moved : Shard → Node → Node → Type 0
  Moved s n n' =
      ((n'.primary ≡ n.primary) × (n'.backup ≡ n.backup)) ⊎ ((dm : DMap) × IsTaken s n n' dm)

  module _ (s : Shard) (n : Node) (dm : DMap) (here : lookup name s.dmaps ≡ some dm) where
    after_move_lem :
        (payload value : List ℕ) (r : Outcome Error Message)
        → export mv.transport dm.str ≡ ok payload
        → mv.box.marshal (record { part_id = id; name = name; payload = payload }) ≡ some value
        → or_transport (env.network (move_request kind owner value)) ≡ r
        → Moved s n
            (after_move kind id s name
              (record n { sent = move_request kind owner value ∷ n.sent }, r)).0
    unfolding after_move drop_dmap
    after_move_lem payload value (ok m) e b t = inr (
      dm,
      record {
        payload = payload;
        value = value;
        answer = m;
        here = here;
        exported = e;
        boxed = b;
        taken = t;
        sent = sent-set_shard kind id without sent_node;
        left = without;
        partition = shards-set_shard kind id without sent_node;
        owners = refl;
        count = refl;
        dmaps = λ x. lookup-erase name x s.dmaps;
        others = λ j q.
            shards-set_shard_others kind id j without sent_node q
            ∙ ap (λ m. lookup j m) (shards_sent kind n sent_node.sent);
        other_kind =
            shards-other kind id without sent_node ∙ shards_sent (other kind) n sent_node.sent;
      },
    )
      where
        sent_node : Node
        sent_node = record n { sent = move_request kind owner value ∷ n.sent }

        without : Shard
        without = record {
          part = record (s.part) { count = count_down s.part.count };
          dmaps = erase name s.dmaps;
        }
    after_move_lem payload value (fails x) e b t = inl (refl, refl)
    after_move_lem payload value panics e b t = inl (refl, refl)
    after_move_lem payload value stuck e b t = inl (refl, refl)

    send_export_lem :
        (r : Outcome Memory.Error (List ℕ))
        → export mv.transport dm.str ≡ r
        → Moved s n (send_export env mv kind id s name owner n r).0
    unfolding send_export send_box request_to
    send_export_lem (ok payload) e =
        elim (Option-cases
          (mv.box.marshal (record { part_id = id; name = name; payload = payload }))) [
            | inl q ↦ rw (q, send_export, send_box) (inl (refl, refl))
            | inr (value, q) ↦
                rw (q, send_export, send_box) (after_move_lem payload value _ e q refl)
          ]
    send_export_lem (fails x) e = inl (refl, refl)
    send_export_lem panics e = inl (refl, refl)
    send_export_lem stuck e = inl (refl, refl)

  -- Whatever `moveDMap` on a partition of the node comes to, the node's partitions and backups are
  -- as before, or the DMap's exported storage went to the owner with the move operation of its
  -- kind, the owner answered without an error, and the node has lost just this DMap: the partition
  -- has its other DMaps and its owners, its count is one lower as an int32, and every other
  -- partition and all of the other kind are as before.
  pub move_dmap_lem :
      (s : Shard) (n : Node)
      → lookup id (shards kind n) ≡ some s
      → Moved s n (move_dmap env mv kind id name owner n).0
  unfolding move_dmap move_in
  move_dmap_lem s n q =
      rw (q, move_dmap)
        (elim (Option-cases (lookup name s.dmaps)) [
          | inl a ↦ rw (a, move_in) (inl (refl, refl))
          | inr (dm, a) ↦ elim (Bool-cases (is_locked mv kind id name)) [
            | inl l ↦ rw (a, move_in, l) (inl (refl, refl))
            | inr l ↦
                rw (a, move_in, l) (send_export_lem s n dm a (export mv.transport dm.str) refl)
          ]
        ])

length-insert_absent :
    {V : Type 0} (k : Text) (v : V) (m : Dict Text V)
    → lookup k m ≡ none
    → length (insert k v m) ≡ length m + 1
length-insert_absent k v [] n = refl
length-insert_absent k v ((j, w) ∷ m) n = elim (Bool-cases (text_beq j k)) [
  | inl q ↦ absurd (ground arith)
  | inr q ↦ rw q (omega (arith, length-insert_absent k v m (rw q at n)))
]

-- The receiver: a node that has the partition with an owner, and not the DMap.
module _ (env : Env) (mv : Mover) (text : Error → List ℕ) (kind : Kind) (id : ℕ) (name : Text)
    (lossless : IsLossless mv.box) (unboxed : IsLossless mv.transport) (s : Shard) (o : Host)
    (os : List Host) (n : Node) (there : lookup id (shards kind n) ≡ some s)
    (owned : s.part.owners ≡ o ∷ os) (new : lookup name s.dmaps ≡ none) where
  abbrev pub received : Storage → Shard
  received str = record s { dmaps = insert name (record { str = str; oplog = [] }) s.dmaps }

  abbrev pub box_of : List ℕ → DmapBox
  box_of payload = record { part_id = id; name = name; payload = payload }

  merge_owned_lem :
      (payload : List ℕ) (str : Storage)
      → import mv.transport env.mmap payload ≡ ok str
      → merge_owned env mv kind (box_of payload) n (some s)
        ≡ (set_shard kind id (received str) n, ok tt)
  unfolding merge_owned merge_dmaps merge_into
  merge_owned_lem payload str q =
      ap by_owners owned
      ∙ ap (λ r. merge_dmaps env kind id s name r n) q
      ∙ rw (new, merge_dmaps, merge_into) refl
    where
      by_owners : List Host → Result Unit
      by_owners l = elim l [
        | [] ↦ (n, panics)
        | _ ∷ _ ↦ merge_dmaps env kind id s name (import mv.transport env.mmap payload) n
      ]

  operation_lem :
      (req : Message) (payload : List ℕ) (str : Storage)
      → mv.box.marshal (box_of payload) ≡ some req.value
      → import mv.transport env.mmap payload ≡ ok str
      → move_dmap_operation env mv text kind n req
        ≡ (set_shard kind id (received str) n, ok (success req))
  unfolding move_dmap_operation write_response
  operation_lem req payload str b q =
      rw (lossless (box_of payload) req.value b, move_dmap_operation, there)
        (ap (write_response text req) (merge_owned_lem payload str q))

  -- A move operation for a DMap that the partition, which has an owner, does not have, whose box
  -- and storage are decoded, answers without an error, and leaves the partition with the count that
  -- it had and with one DMap more: where the count was the number of the partition's DMaps, it is
  -- not so any longer.
  pub move_dmap_operation_uncounted :
      (req : Message) (payload : List ℕ) (str : Storage)
      → mv.box.marshal (box_of payload) ≡ some req.value
      → import mv.transport env.mmap payload ≡ ok str
      → IsCounted s
      → (n' : Node) × (s' : Shard) × (move_dmap_operation env mv text kind n req
          ≡ (n', ok (success req)))
        × (lookup id (shards kind n') ≡ some s')
        × (s'.part.count ≡ s.part.count)
        × (length s'.dmaps ≡ length s.dmaps + 1)
        × ¬ IsCounted s'
  move_dmap_operation_uncounted req payload str b q counted = (
    set_shard kind id (received str) n,
    received str,
    operation_lem req payload str b q,
    shards-set_shard kind id (received str) n,
    refl,
    length-insert_absent name (record { str = str; oplog = [] }) s.dmaps new,
    λ c. omega (
      arith,
      c,
      counted,
      length-insert_absent name (record { str = str; oplog = [] }) s.dmaps new,
    ),
  )

  -- The sender of the DMap, whose request the receiver answers.
  module _ (env' : Env) (owner : Host) (s0 : Shard) (n0 : Node) (t : Table) (m : Bool)
      (oplog : Dict ℕ LogOp) (payload value : List ℕ) where
    abbrev pub moving : DMap
    moving = record { str = record { tables = t ∷ []; merging = m }; oplog = oplog }

    -- `moveDMap` of an unlocked DMap with a sound storage of one table, whose export and box are
    -- made, to an owner that has the partition with an owner and without the DMap, grants the
    -- mapping, and answers as its move operation does, with serializers that give back what they
    -- were given: the operation succeeds and leaves the receiver with a DMap of that name, from
    -- which `Get` gives what the moved one gave, and the sender's partition has its count lowered
    -- and the DMap no longer.
    pub move_dmap-move_dmap_operation :
        lookup id (shards kind n0) ≡ some s0
        → lookup name s0.dmaps ≡ some moving
        → is_locked mv kind id name ≡ false
        → IsSound moving.str
        → env.mmap t.allocated ≡ true
        → export mv.transport moving.str ≡ ok payload
        → mv.box.marshal (box_of payload) ≡ some value
        → ((n1 : Node) (resp : Message)
            → move_dmap_operation env mv text kind n (move_request kind owner value).message
              ≡ (n1, ok resp)
            → env'.network (move_request kind owner value) ≡ some resp)
        → (n' : Node) × (n1 : Node) × (s1 : Shard) × (dm : DMap) × (move_dmap env' mv kind id name
              owner n0
            ≡ (n', ok tt))
          × (lookup id (shards kind n')
              ≡ some (record {
                part = record (s0.part) { count = count_down s0.part.count };
                dmaps = erase name s0.dmaps;
              }))
          × (move_dmap_operation env mv text kind n (move_request kind owner value).message
              ≡ (n1, ok (success (move_request kind owner value).message)))
          × (lookup id (shards kind n1) ≡ some s1)
          × (lookup name s1.dmaps ≡ some dm)
          × ((h : ℕ) → get dm.str h ≡ get moving.str h)
    unfolding move_dmap move_in send_export send_box after_move request_to or_transport success
        drop_dmap
    move_dmap-move_dmap_operation here has free sound granted exported boxed answer =
        let (str, q, _, _, gets) =
          import-export mv.transport env.mmap unboxed t m payload sound granted exported in
        let req = (move_request kind owner value).message in
        let done = operation_lem req payload str boxed q in
        let sent = record n0 { sent = move_request kind owner value ∷ n0.sent } in
        (
          drop_dmap kind id s0 name sent,
          set_shard kind id (received str) n,
          received str,
          record { str = str; oplog = [] },
          rw
              (
                here,
                move_dmap,
                has,
                move_in,
                free,
                exported,
                boxed,
                send_export,
                send_box,
                answer (set_shard kind id (received str) n) (success req) done,
                or_transport,
              )
              refl,
          shards-set_shard kind id _ sent,
          done,
          shards-set_shard kind id (received str) n,
          lookup-insert name name (record { str = str; oplog = [] }) s.dmaps
              ∙ rw ((text_beq_iff name name).1 refl) refl,
          gets,
        )
