-- ===== src/Routing/Tests.antt =====
-- The theorems of routing.go on a small cluster.
use olricdb.Prelude.{ℕ, ◌≡◌, refl, false, none, some, List, [], ◌∷◌, All, nat_eq, ok}
use olricdb.Prelude.Codec.{Codec}
use olricdb.Prelude.Dict.{Dict}
use olricdb.Discovery.{Host, NodeEvent, node_update, to_host, handle_event, find_named, host_cmp}
use olricdb.Routing.{
  Partition, Member, Route, View, Ring, add_owner, distribute_primary_copies, distribute_backups,
  update_routing_operation, locate_hkey,
}
use olricdb.Routing.Owners.{IsLive, IsDistributed, distribute_primary_copies_lem}
use olricdb.Routing.Backups.{IsBackedUp, distribute_backups_lem}
use olricdb.Routing.Update.{IsApplied, located_by, locate_hkey-update_routing_operation}
use olricdb.Routing.Events.{process_all, process_all-handle_event}

abbrev a : Host
a = record { name = 97 ∷ []; birthdate = 1 }

abbrev b : Host
b = record { name = 98 ∷ []; birthdate = 2 }

-- The node `a` is up with `b`, which has data.
abbrev view : View
view = record { this = a; members = a ∷ b ∷ []; is_empty = λ h. false }

a-IsLive : IsLive view.members a
unfolding find_named
a-IsLive = refl

b-IsLive : IsLive view.members b
unfolding find_named
b-IsLive = refl

distribute_primary_copies_lem_example :
    (owners : List Host) × (distribute_primary_copies view a (record { owners = b ∷ []; count = 0 })
      ≡ ok owners)
    × IsDistributed view a (record { owners = b ∷ []; count = 0 }) owners
distribute_primary_copies_lem_example =
    distribute_primary_copies_lem view a (record { owners = b ∷ []; count = 0 }) a-IsLive

abbrev alone : View
alone = record { this = a; members = []; is_empty = λ h. false }

everyone_dead : All (λ h. find_named h.name alone.members ≡ none) (add_owner (b ∷ []) b)
unfolding find_named add_owner host_cmp
everyone_dead = (refl, tt)

distribute_backups_lem_example :
    (part' : Partition) × (distribute_backups view 1
        (some (b ∷ []))
        (record { owners = a ∷ []; count = 4 })
      ≡ ok (part', part'.owners))
    × IsBackedUp view (b ∷ []) (record { owners = a ∷ []; count = 4 }) part'
distribute_backups_lem_example =
    distribute_backups_lem view (b ∷ []) (record { owners = a ∷ []; count = 4 }) ((λ i. i), tt)
      (b-IsLive, tt)

abbrev route : Route
route = record { owners = b ∷ a ∷ []; backups = b ∷ [] }

abbrev table : Dict ℕ Route
table = (0, route) ∷ []

abbrev constant : Codec (Dict ℕ Route)
constant = record { marshal = λ rt. none; unmarshal = λ bs. some table }

abbrev part : Partition
part = record { owners = []; count = 2 }

abbrev member : Member
member = record {
  this = b;
  partition_count = 1;
  partitions = (0, part) ∷ [];
  backups = (0, part) ∷ [];
}

locate_hkey-update_routing_operation_example :
    (db' : Member) × (update_routing_operation constant [] member ≡ ok db')
    × IsApplied table member db'
    × ((hkey : ℕ) → locate_hkey db' false hkey ≡ located_by table member hkey)
locate_hkey-update_routing_operation_example =
    locate_hkey-update_routing_operation constant [] table member refl (refl, tt) ((part, refl), tt)
      ((part, refl), tt)

-- A ring that is the list of its hosts; a removal empties it.
abbrev log_ring : Ring (List Host)
log_ring = record { add = λ r h. h ∷ r; remove = λ r name. [] }

abbrev updated : NodeEvent
updated = record { event = node_update; node = record { name = 98 ∷ []; meta = [] } }

abbrev zero_meta : List ℕ → ℕ
zero_meta bs = 0

process_all-handle_event_example :
    (first : List NodeEvent) × (second : List NodeEvent) × (handle_event
        (97 ∷ [])
        updated
        ([] ∷ [] ∷ [])
      ≡ first ∷ second ∷ [])
    × (process_all log_ring zero_meta (b ∷ []) first ≡ to_host zero_meta updated.node ∷ [])
    × (process_all log_ring zero_meta (b ∷ []) second ≡ [])
process_all-handle_event_example =
    process_all-handle_event log_ring zero_meta (b ∷ []) (97 ∷ []) updated refl refl
