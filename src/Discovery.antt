-- ===== src/Discovery.antt =====
-- discovery.go: the members of the cluster as memberlist reports them, and the events that their
-- changes raise.
pub mod Coordinator
mod Tests
use olricdb.Prelude.{
  ℕ, Bool, true, false, ◌&&◌, Option, none, some, List, [], ◌∷◌, ◌++◌, map, leb, ◌==◌,
  if◌then◌else◌, Text, text_beq, Outcome, ok, fails, panics, ◌>>=◌,
}

-- `host`, with the birthdate of its `NodeMetadata`.
pub record Host : Type 0 where
  pub name : Text
  pub birthdate : ℕ

-- A `memberlist.Node`.
pub record Node : Type 0 where
  pub name : Text
  pub meta : List ℕ

pub data Error : Type 0 where
  host_not_found : Error

unfoldable pub host_cmp : Host → Host → Bool
host_cmp o1 o2 = text_beq o1.name o2.name && (o1.birthdate == o2.birthdate)

-- `DecodeMeta` is a parameter: what msgpack leaves in the metadata, an error or not.
abbrev pub to_host : (List ℕ → ℕ) → Node → Host
to_host decode_meta node = record { name = node.name; birthdate = decode_meta node.meta }

unfoldable pub insert_by_birthdate : Host → List Host → List Host
insert_by_birthdate h [] = h ∷ []
insert_by_birthdate h (m ∷ ms) =
    if leb h.birthdate m.birthdate then h ∷ m ∷ ms else m ∷ insert_by_birthdate h ms

-- `sort.Slice` by the birthdate.
unfoldable pub sort_members : List Host → List Host
unfolding insert_by_birthdate
sort_members [] = []
sort_members (h ∷ hs) = insert_by_birthdate h (sort_members hs)

unfoldable pub get_members : (List ℕ → ℕ) → List Node → List Host
unfolding sort_members
get_members decode_meta nodes = sort_members (map (to_host decode_meta) nodes)

unfoldable pub find_named : Text → List Host → Option Host
find_named name [] = none
find_named name (m ∷ ms) = if text_beq m.name name then some m else find_named name ms

unfoldable pub or_host_not_found : Option Host → Outcome Error Host
or_host_not_found none = fails host_not_found
or_host_not_found (some h) = ok h

unfoldable pub find_member : (List ℕ → ℕ) → List Node → Text → Outcome Error Host
unfolding find_named or_host_not_found get_members
find_member decode_meta nodes name =
    or_host_not_found (find_named name (get_members decode_meta nodes))

-- `members[0]`
unfoldable pub first_member : List Host → Outcome Error Host
first_member [] = panics
first_member (m ∷ ms) = ok m

unfoldable pub get_coordinator : (List ℕ → ℕ) → List Node → Outcome Error Host
unfolding first_member get_members
get_coordinator decode_meta nodes = first_member (get_members decode_meta nodes)

-- `isCoordinator` of the node with the name `name`.
unfoldable pub is_coordinator : (List ℕ → ℕ) → List Node → Text → Outcome Error Bool
unfolding get_coordinator
is_coordinator decode_meta nodes name = do
  m ← get_coordinator decode_meta nodes
  ok (text_beq m.name name)

-- `memberlist.NodeEventType`
pub data EventType : Type 0 where
  node_join node_leave node_update : EventType

pub record NodeEvent : Type 0 where
  pub event : EventType
  pub node : Node

-- One turn of the loop over the subscribers: what is sent, and the event as the next turn finds it.
unfoldable pub send_event : NodeEvent → List NodeEvent × NodeEvent
send_event e = elim e.event [
  | node_join ↦ (e ∷ [], e)
  | node_leave ↦ (e ∷ [], e)
  | node_update ↦ (
    record e { event = node_leave } ∷ record e { event = node_join } ∷ [],
    record e { event = node_leave },
  )
]

-- The channels of the subscribers, each with what it holds, oldest first.
unfoldable pub send_all : NodeEvent → List (List NodeEvent) → List (List NodeEvent)
unfolding send_event
send_all e [] = []
send_all e (ch ∷ chs) = let (sent, e') = send_event e in (ch ++ sent) ∷ send_all e' chs

-- `handleEvent` of the node with the name `name`. The channels are taken to have room.
unfoldable pub handle_event : Text → NodeEvent → List (List NodeEvent) → List (List NodeEvent)
unfolding send_all
handle_event name e chs = if text_beq e.node.name name then chs else send_all e chs
