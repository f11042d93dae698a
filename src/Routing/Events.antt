-- ===== src/Routing/Events.antt =====
-- What the ring makes of the events that `handleEvent` sends to its subscribers.
use olricdb.Prelude.{ℕ, ◌≡◌, refl, ap, false, List, [], ◌∷◌, Text, text_beq}
use olricdb.Discovery.{
  NodeEvent, node_join, node_leave, node_update, to_host, handle_event, send_all, send_event,
}
use olricdb.Routing.{Ring, process_node_event}

-- `listenMemberlistEvents`: the events of a channel, one after the other.
abbrev pub process_all : {R : Type 0} → Ring R → (List ℕ → ℕ) → R → List NodeEvent → R
process_all ring decode_meta r [] = r
process_all ring decode_meta r (e ∷ es) =
    process_all ring decode_meta (process_node_event ring decode_meta r e) es

-- With two subscribers, an update of another node is sent to the first as events after which its
-- ring has the node removed and added again, and to the second as events after which its ring has
-- the node removed only.
pub process_all-handle_event :
    {R : Type 0} (ring : Ring R) (decode_meta : List ℕ → ℕ) (r : R) (name : Text) (e : NodeEvent)
    → e.event ≡ node_update
    → text_beq e.node.name name ≡ false
    → (first : List NodeEvent) × (second : List NodeEvent) × (handle_event name e ([] ∷ [] ∷ [])
        ≡ first ∷ second ∷ [])
      × (process_all ring decode_meta r first
          ≡ ring.add (ring.remove r e.node.name) (to_host decode_meta e.node))
      × (process_all ring decode_meta r second ≡ ring.remove r e.node.name)
unfolding handle_event send_all send_event process_node_event
process_all-handle_event ring decode_meta r name e update other = (
  record e { event = node_leave } ∷ record e { event = node_join } ∷ [],
  record e { event = node_leave } ∷ [],
  rw other (ap (λ t. send_all (record { event = t; node = e.node }) ([] ∷ [] ∷ [])) update),
  refl,
  refl,
)
