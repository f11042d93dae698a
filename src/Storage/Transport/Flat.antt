-- ===== src/Storage/Transport/Flat.antt =====
-- A serializer of tables on their way, for the tests: the fields and the keys as one list of numbers.
use olricdb.Prelude.{ℕ, zero, suc, ◌≡◌, refl, Option, none, some, List, [], ◌∷◌}
use olricdb.Prelude.Codec.{Codec, IsLossless}
use olricdb.Prelude.Dict.{Dict}
use olricdb.Storage.Transport.{Transport}

abbrev pub flat_keys : Dict ℕ ℕ → List ℕ → List ℕ
flat_keys [] tail = 0 ∷ tail
flat_keys ((k, o) ∷ rest) tail = 1 ∷ k ∷ o ∷ flat_keys rest tail

abbrev pub flatten : Transport → List ℕ
flatten t = t.offset ∷ t.allocated ∷ t.inuse ∷ t.garbage ∷ flat_keys t.hkeys t.memory

abbrev pub add_key : ℕ → ℕ → Option (Dict ℕ ℕ × List ℕ) → Option (Dict ℕ ℕ × List ℕ)
add_key k o none = none
add_key k o (some (ks, tail)) = some ((k, o) ∷ ks, tail)

abbrev pub unflat_keys : List ℕ → Option (Dict ℕ ℕ × List ℕ)
unflat_keys (zero ∷ tail) = some ([], tail)
unflat_keys (suc _ ∷ k ∷ o ∷ rest) = add_key k o (unflat_keys rest)
unflat_keys _ = none

abbrev pub rebuild : ℕ → ℕ → ℕ → ℕ → Option (Dict ℕ ℕ × List ℕ) → Option Transport
rebuild o a i g none = none
rebuild o a i g (some (ks, m)) =
    some (record { hkeys = ks; memory = m; offset = o; allocated = a; inuse = i; garbage = g })

abbrev pub unflatten : List ℕ → Option Transport
unflatten (o ∷ a ∷ i ∷ g ∷ rest) = rebuild o a i g (unflat_keys rest)
unflatten _ = none

pub unflat_keys-flat_keys :
    (ks : Dict ℕ ℕ) (tail : List ℕ) → unflat_keys (flat_keys ks tail) ≡ some (ks, tail)
unflat_keys-flat_keys [] tail = refl
unflat_keys-flat_keys ((k, o) ∷ ks) tail = rw (unflat_keys-flat_keys ks tail) refl

abbrev pub flat : Codec Transport
flat = record { marshal = λ t. some (flatten t); unmarshal = unflatten }

pub flat-IsLossless : IsLossless flat
flat-IsLossless t data' e =
    let same : flatten t ≡ data' = cc in
    rw (← same) (rw (unflat_keys-flat_keys t.hkeys t.memory) refl)
