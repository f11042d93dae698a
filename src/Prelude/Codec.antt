-- ===== src/Prelude/Codec.antt =====
-- The serializers that the program calls: msgpack, gob and json are libraries.
use mathlib.Core.Path.{◌≡◌}
use mathlib.Core.Option.{Option, some}
use mathlib.Core.List.{List}
use Prim.Native.Nat.{ℕ}

-- `Marshal` and `Unmarshal` at one type. `none` is an error.
pub record Codec (A : Type 0) : Type 0 where
  pub marshal : A → Option (List ℕ)
  pub unmarshal : List ℕ → Option A

-- What was marshalled is unmarshalled to the same value.
abbrev pub IsLossless : {A : Type 0} → Codec A → Type 0
IsLossless {A} c = (a : A) (data' : List ℕ) → c.marshal a ≡ some data' → c.unmarshal data' ≡ some a
