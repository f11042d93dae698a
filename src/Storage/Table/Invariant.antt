-- ===== src/Storage/Table/Invariant.antt =====
-- What every operation of a table keeps.
use native.Mathlib.Omega.{arith}
use olricdb.Prelude.{
  ℕ, ◌+◌, ◌≤◌, ◌<◌, ◌≡◌, refl, ap, ◌∙◌, [], ◌∷◌, some, All, Outcome, ok, fails, panics, stuck,
  nat_eq,
}
use olricdb.Prelude.Dict.{Dict, lookup, insert, erase, Distinct}
use olricdb.Prelude.Bytes.{from_be}
use olricdb.Storage.Memory.{Memory, bytes}
use olricdb.Storage.Entry.{VData, size, IsEncodable, Holds, Holds-moved, from_be_vlen}
use olricdb.Storage.Table.{Table, minimum_size}

-- An encodable entry lies at `o`, below `limit`.
pub record Stored (m : Memory) (limit o : ℕ) : Type 0 where
  pub entry : VData
  pub encodable : IsEncodable entry
  pub below : o + size entry ≤ limit
  pub holds : Holds m o entry

-- The length of the entry at `o`, by its header.
abbrev pub size_at : Memory → ℕ → ℕ
size_at m o = 13 + m.byte o + from_be (bytes m (o + 9 + m.byte o) 4)

abbrev pub live_size : Memory → Dict ℕ ℕ → ℕ
live_size m [] = 0
live_size m ((h, o) ∷ hs) = size_at m o + live_size m hs

-- All that was written is in use or garbage, and the entries that the index reaches are in use.
pub record IsWellFormed (t : Table) : Type 0 where
  pub sized : minimum_size ≤ t.allocated
  pub mapped : t.memory.len ≡ t.allocated
  pub room : t.offset < t.allocated
  pub entries : All (λ e. Stored t.memory t.offset e.1) t.hkeys
  pub distinct : Distinct t.hkeys
  pub accounted : t.inuse + t.garbage ≡ t.offset
  pub live : live_size t.memory t.hkeys ≤ t.inuse

-- The call succeeds, and what it returns satisfies `P`.
abbrev pub Ensures {ℓ} : {E A : Type ℓ} → (A → Type 0) → Outcome E A → Type 0
Ensures P (ok a) = P a
Ensures P (fails e) = ⊥
Ensures P panics = ⊥
Ensures P stuck = ⊥

pub size_at-Holds :
    (m : Memory) (o : ℕ) (v : VData) → IsEncodable v → Holds m o v → size_at m o ≡ size v
size_at-Holds m o v enc h = omega (
  arith,
  h.klen,
  ap from_be (ap (λ k. bytes m (o + 9 + k) 4) h.klen ∙ h.vlen) ∙ from_be_vlen m o v enc h,
)

pub size_at-Stored : (m : Memory) (limit o : ℕ) (s : Stored m limit o) → size_at m o ≡ size s.entry
size_at-Stored m limit o s = size_at-Holds m o s.entry s.encodable s.holds

-- An entry does not see what is written past its end.
pub Holds-kept :
    (m m' : Memory) (limit o : ℕ) (s : Stored m limit o)
    → ((i : ℕ) → i < limit → m'.byte i ≡ m.byte i)
    → Holds m' o s.entry
Holds-kept m m' limit o s same =
    Holds-moved m m' o o s.entry (λ i lt. same (o + i) (omega (arith, s.below))) s.holds

pub Stored-kept :
    (m m' : Memory) (limit limit' o : ℕ)
    → limit ≤ limit'
    → ((i : ℕ) → i < limit → m'.byte i ≡ m.byte i)
    → Stored m limit o
    → Stored m' limit' o
Stored-kept m m' limit limit' o le same s = record {
  entry = s.entry;
  encodable = s.encodable;
  below = omega (arith, s.below);
  holds = Holds-kept m m' limit o s same;
}

pub entries-kept :
    (m m' : Memory) (limit limit' : ℕ) (hs : Dict ℕ ℕ)
    → limit ≤ limit'
    → ((i : ℕ) → i < limit → m'.byte i ≡ m.byte i)
    → All (λ e. Stored m limit e.1) hs
    → All (λ e. Stored m' limit' e.1) hs
entries-kept m m' limit limit' [] le same h = tt
entries-kept m m' limit limit' ((k, o) ∷ hs) le same h =
    (Stored-kept m m' limit limit' o le same h.0, entries-kept m m' limit limit' hs le same h.1)

pub live_size-kept :
    (m m' : Memory) (limit : ℕ) (hs : Dict ℕ ℕ)
    → ((i : ℕ) → i < limit → m'.byte i ≡ m.byte i)
    → All (λ e. Stored m limit e.1) hs
    → live_size m' hs ≡ live_size m hs
live_size-kept m m' limit [] same h = refl
live_size-kept m m' limit ((k, o) ∷ hs) same h = omega (
  arith,
  live_size-kept m m' limit hs same h.1,
  size_at-Stored m limit o h.0,
  size_at-Holds m' o h.0.entry h.0.encodable (Holds-kept m m' limit o h.0 same),
)

pub live_size-erase_le :
    (m : Memory) (k : ℕ) (hs : Dict ℕ ℕ) → live_size m (erase k hs) ≤ live_size m hs
live_size-erase_le m k [] = omega arith
live_size-erase_le m k ((j, p) ∷ hs) = ground (arith, live_size-erase_le m k hs)

-- Erasing a key takes its entry off the live sum.
pub live_size-erase :
    (m : Memory) (k o : ℕ) (hs : Dict ℕ ℕ)
    → lookup k hs ≡ some o
    → live_size m (erase k hs) + size_at m o ≤ live_size m hs
live_size-erase m k o [] h = absurd (cc)
live_size-erase m k o ((j, p) ∷ hs) h =
    ground (arith, live_size-erase m k o hs, live_size-erase_le m k hs)

pub live_size-insert :
    (m : Memory) (k o : ℕ) (hs : Dict ℕ ℕ)
    → live_size m (insert k o hs) ≤ live_size m hs + size_at m o
live_size-insert m k o [] = omega arith
live_size-insert m k o ((j, p) ∷ hs) = ground (arith, live_size-insert m k o hs)
