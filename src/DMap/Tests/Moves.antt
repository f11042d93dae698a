-- ===== src/DMap/Tests/Moves.antt =====
-- The theorems of moves and removals of DMaps on a small node.
use native.Mathlib.Omega.{arith}
use olricdb.Prelude.{
  ◌+◌, ℕ, ◌<◌, ◌≡◌, refl, ap, true, false, Option, none, some, List, [], ◌∷◌, ◌++◌, ◌==◌, length,
  take, drop, take-append, drop-append, text_eq, nat_eq, Outcome, ok, fails, panics, stuck, zero,
  suc,
}
use olricdb.Prelude.Dict.{lookup, erase}
use olricdb.Prelude.Codec.{Codec, IsLossless}
use olricdb.Protocol.Code.{Message, zero_message, success}
use olricdb.Storage.Memory.{read, bytes}
use olricdb.Storage.Store.{Storage, get}
use olricdb.Storage.Store.Invariant.{fresh_table}
use olricdb.Storage.Transport.{export, import, pack, export_tables, or_encode_failed}
use olricdb.Storage.Transport.RoundTrip.{import-export}
use olricdb.Storage.Transport.Flat.{flat, flat-IsLossless}
use olricdb.DMap.{
  Result, DMap, Shard, Node, Env, Error, Kind, primary_copy, backup_copy, shards, set_shard,
  count_down,
}
use olricdb.DMap.Stale.{IsCounted}
use olricdb.DMap.Fsck.{DmapBox, Mover, is_locked, move_dmap, move_dmap_operation}
use olricdb.DMap.Fsck.Move.{
  Moved, move_request, move_dmap_lem, move_dmap_operation_uncounted, move_dmap-move_dmap_operation,
}
use olricdb.DMap.Destroy.{
  Remover, destroy_found, destroy_dmap_operation, Has, Lacks, Present, destroy_dmap_operation_lem,
  destroy_found_uncounted,
}
use olricdb.DMap.Tests.{a, str, dm, shard, node, env, alone, error_text, str-IsSound}

abbrev put_box : DmapBox → List ℕ
put_box x = x.part_id ∷ length x.name ∷ (x.name ++ x.payload)

abbrev take_box : List ℕ → Option DmapBox
take_box (p ∷ l ∷ rest) = some (record { part_id = p; name = take l rest; payload = drop l rest })
take_box _ = none

abbrev box_codec : Codec DmapBox
box_codec = record { marshal = λ x. some (put_box x); unmarshal = take_box }

box_codec-IsLossless : IsLossless box_codec
box_codec-IsLossless x data' e =
    let same : put_box x ≡ data' = cc in
    rw (← same) (rw (take-append x.name x.payload, drop-append x.name x.payload) refl)

abbrev mover : Mover
mover = record { transport = flat; box = box_codec; locks = λ id name. 0; bad_box = [] }

shards_run : lookup 0 (shards primary_copy node) ≡ some shard
unfolding shards
shards_run = refl

move_dmap_lem_example :
    Moved env mover primary_copy 0
      (109 ∷ [])
      a
      shard
      node
      (move_dmap env mover primary_copy 0 (109 ∷ []) a node).0
move_dmap_lem_example = move_dmap_lem env mover primary_copy 0 (109 ∷ []) a shard node shards_run

-- The export of the storage without keys.
abbrev payload : List ℕ
payload = 0 ∷ 1048576 ∷ 0 ∷ 0 ∷ 0 ∷ 0 ∷ []

exported : export flat str ≡ ok payload
unfolding export export_tables or_encode_failed pack read bytes
exported = refl

-- The receiver has the partition without the DMap.
abbrev vacant : Shard
vacant = record { part = record { owners = a ∷ []; count = 0 }; dmaps = [] }

abbrev receiver : Node
receiver = record alone { primary = (0, vacant) ∷ [] }

vacant_run : lookup 0 (shards primary_copy receiver) ≡ some vacant
unfolding shards
vacant_run = refl

abbrev value : List ℕ
value = put_box (record { part_id = 0; name = 109 ∷ []; payload = payload })

imported : (s' : Storage) × (import flat env.mmap payload ≡ ok s')
imported =
    let (s', q, _, _, _) =
      import-export flat env.mmap flat-IsLossless (fresh_table 0) false payload str-IsSound refl
        exported in
    (s', q)

abbrev move_message : Message
move_message = record zero_message { value = value }

move_dmap_operation_uncounted_example :
    (n' : Node) × (s' : Shard) × (move_dmap_operation env mover error_text primary_copy receiver
        move_message
      ≡ (n', ok (success move_message)))
    × (lookup 0 (shards primary_copy n') ≡ some s')
    × (s'.part.count ≡ vacant.part.count)
    × (length s'.dmaps ≡ length vacant.dmaps + 1)
    × ¬ IsCounted s'
move_dmap_operation_uncounted_example =
    move_dmap_operation_uncounted env mover error_text primary_copy 0 (109 ∷ [])
      box_codec-IsLossless flat-IsLossless vacant a [] receiver vacant_run refl refl move_message
      payload imported.0 refl imported.1 refl

answer_of : Outcome Error Message → Option Message
answer_of o = elim o [ ok m ↦ some m | fails _ ↦ none | panics ↦ none | stuck ↦ none ]

-- The answer to the request is that of the receiver.
abbrev to_receiver : Env
to_receiver = record env {
  network =
      λ r. answer_of (move_dmap_operation env mover error_text primary_copy receiver r.message).1;
}

unlocked : is_locked mover primary_copy 0 (109 ∷ []) ≡ false
unfolding is_locked
unlocked = refl

answered :
    (n1 : Node) (resp : Message)
    → move_dmap_operation env mover error_text primary_copy receiver
        (move_request primary_copy a value).message
      ≡ (n1, ok resp)
    → to_receiver.network (move_request primary_copy a value) ≡ some resp
unfolding answer_of
answered n1 resp q = ap (λ (r : Result Message). answer_of r.1) q

move_dmap-move_dmap_operation_example :
    (n' : Node) × (n1 : Node) × (s1 : Shard) × (dm' : DMap) × (move_dmap to_receiver mover
        primary_copy 0
        (109 ∷ [])
        a
        node
      ≡ (n', ok tt))
    × (lookup 0 (shards primary_copy n')
        ≡ some (record {
          part = record (shard.part) { count = count_down shard.part.count };
          dmaps = erase (109 ∷ []) shard.dmaps;
        }))
    × (move_dmap_operation env mover error_text primary_copy receiver
          (move_request primary_copy a value).message
        ≡ (n1, ok (success (move_request primary_copy a value).message)))
    × (lookup 0 (shards primary_copy n1) ≡ some s1)
    × (lookup (109 ∷ []) s1.dmaps ≡ some dm')
    × ((h : ℕ) → get dm'.str h ≡ get str h)
move_dmap-move_dmap_operation_example =
    move_dmap-move_dmap_operation env mover error_text primary_copy 0 (109 ∷ [])
      box_codec-IsLossless flat-IsLossless vacant a [] receiver vacant_run refl refl to_receiver a
      shard node (fresh_table 0) false [] payload value shards_run refl unlocked str-IsSound refl
      exported refl answered

abbrev remover : Remover
remover = record { closes = λ s. true; destroys = λ kind id name. true }

present : (kind : Kind) (i : ℕ) → i < node.config.partition_count → Present kind i node
unfolding shards
present primary_copy zero lt = (shard, refl, tt)
present backup_copy zero lt = (shard, refl, tt)
present kind (suc i) lt = absurd (omega arith)

abbrev destroy_message : Message
destroy_message = record zero_message { dmap = 109 ∷ [] }

destroy_dmap_operation_lem_example :
    (n' : Node) × (destroy_dmap_operation remover error_text node destroy_message
      ≡ (n', ok (success destroy_message)))
    × ((i : ℕ) → i < node.config.partition_count → Has (Lacks (109 ∷ [])) primary_copy i n')
    × ((i : ℕ)
        → i < node.config.partition_count
        → (n'.config.backup_count == 0) ≡ false
        → Has (Lacks (109 ∷ [])) backup_copy i n')
destroy_dmap_operation_lem_example =
    destroy_dmap_operation_lem remover (109 ∷ []) (λ s. refl) error_text node destroy_message refl
      refl present

destroy_found_uncounted_example :
    (s' : Shard) × (destroy_found remover primary_copy 0 shard (109 ∷ []) dm node
      ≡ (set_shard primary_copy 0 s' node, ok tt))
    × ¬ IsCounted s'
destroy_found_uncounted_example =
    destroy_found_uncounted remover primary_copy 0 shard (109 ∷ []) dm node refl refl refl
      (refl, tt) refl
