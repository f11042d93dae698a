-- ===== src/Prelude/Bytes.antt =====
-- encoding/binary's big-endian integers, as lists of bytes.
use Prim.Native.Nat.{ℕ, zero, suc, ◌+◌, ◌*◌, ◌/◌, ◌%◌, ◌^◌, ◌<◌}
use mathlib.Core.Path.{◌≡◌, refl}
use mathlib.Core.List.{List, [], ◌∷◌, ◌++◌}
use native.Mathlib.Nat.{pow-suc}
use native.Mathlib.Omega.{arith}
use olricdb.Prelude.Lists.{length, length-append}

-- The `n` low bytes of `v`, the highest first.
unfoldable pub be : ℕ → ℕ → List ℕ
be zero v = []
be (suc n) v = be n (v / 256) ++ (v % 256 ∷ [])

unfoldable pub from_be_acc : ℕ → List ℕ → ℕ
from_be_acc acc [] = acc
from_be_acc acc (b ∷ bs) = from_be_acc (acc * 256 + b) bs

unfoldable pub from_be : List ℕ → ℕ
unfolding from_be_acc
from_be bs = from_be_acc 0 bs

pub length-be : (n v : ℕ) → length (be n v) ≡ n
unfolding be
length-be zero v = refl
length-be (suc n) v =
    omega (arith, length-append (be n (v / 256)) (v % 256 ∷ []), length-be n (v / 256))

from_be_acc-append :
    (acc : ℕ) (xs : List ℕ) (b : ℕ)
    → from_be_acc acc (xs ++ (b ∷ [])) ≡ from_be_acc acc xs * 256 + b
unfolding from_be_acc
from_be_acc-append acc [] b = refl
from_be_acc-append acc (x ∷ xs) b = from_be_acc-append (acc * 256 + x) xs b

pub from_be-be : (n v : ℕ) → v < 256 ^ n → from_be (be n v) ≡ v
unfolding from_be from_be_acc be
from_be-be zero v h = omega arith
from_be-be (suc n) v h = omega (
  arith,
  from_be_acc-append 0 (be n (v / 256)) (v % 256),
  from_be-be n (v / 256) (omega (arith, pow-suc 256 n)),
)
