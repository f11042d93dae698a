-- ===== src/Prelude/Dict.antt =====
-- Go's maps as association lists. The order of the list stands for the order that a `range` takes.
use mathlib.Core.Path.{◌≡◌, refl, ap, sym, ◌∙◌}
use mathlib.Core.Logic.{inl, inr}
use mathlib.Core.Bool.{true, false}
use mathlib.Core.Option.{Option, none, some}
use mathlib.Core.List.{List, [], ◌∷◌}
use native.Mathlib.Omega.{arith}
use olricdb.Prelude.Tests.{Eq, if◌then◌else◌, Bool-cases}
use olricdb.Prelude.Lists.{All}

abbrev pub Dict {ℓ} : Type ℓ → Type ℓ → Type ℓ
Dict K V = List (K × V)

module _ {ℓ} {K V : Type ℓ} ⦃e : Eq K⦄ where
  abbrev pub lookup : K → Dict K V → Option V
  lookup k [] = none
  lookup k ((j, v) ∷ m) = if e.beq j k then some v else lookup k m

  abbrev pub insert : K → V → Dict K V → Dict K V
  insert k v [] = (k, v) ∷ []
  insert k v ((j, w) ∷ m) = if e.beq j k then (k, v) ∷ m else (j, w) ∷ insert k v m

  abbrev pub erase : K → Dict K V → Dict K V
  erase k [] = []
  erase k ((j, w) ∷ m) = let rest = erase k m in if e.beq j k then rest else (j, w) ∷ rest

  pub lookup-insert :
      (k j : K) (v : V) (m : Dict K V)
      → lookup j (insert k v m) ≡ (if e.beq k j then some v else lookup j m)
  lookup-insert k j v [] = refl
  lookup-insert k j v ((i, w) ∷ m) =
      ground (arith, e.beq_iff k j, e.beq_iff i k, e.beq_iff i j, lookup-insert k j v m)

  pub lookup-erase :
      (k j : K) (m : Dict K V) → lookup j (erase k m) ≡ (if e.beq k j then none else lookup j m)
  lookup-erase k j [] = ground arith
  lookup-erase k j ((i, w) ∷ m) =
      ground (arith, e.beq_iff k j, e.beq_iff i k, e.beq_iff i j, lookup-erase k j m)

  module _ {κ} (P : K × V → Type κ) where
    pub All-insert : (k : K) (v : V) (m : Dict K V) → P (k, v) → All P m → All P (insert k v m)
    All-insert k v [] p h = (p, tt)
    All-insert k v ((j, w) ∷ m) p h =
        elim (e.beq j k) as (λ b. All P (if b then (k, v) ∷ m else (j, w) ∷ insert k v m)) [
          | true ↦ (p, h.1)
          | false ↦ (h.0, All-insert k v m p h.1)
        ]

    pub All-erase : (k : K) (m : Dict K V) → All P m → All P (erase k m)
    All-erase k [] h = tt
    All-erase k ((j, w) ∷ m) h =
        elim (e.beq j k) as (λ b. All P (if b then erase k m else (j, w) ∷ erase k m)) [
          | true ↦ All-erase k m h.1
          | false ↦ (h.0, All-erase k m h.1)
        ]

  pub All-lookup {κ} :
      (P : V → Type κ) (k : K) (m : Dict K V) {v : V}
      → All (λ x. P x.1) m
      → lookup k m ≡ some v
      → P v
  All-lookup P k [] h = λ q. cc
  All-lookup P k ((j, w) ∷ m) {v} h =
      elim (e.beq j k) as (λ b. (if b then some w else lookup k m) ≡ some v → P v) [
        | true ↦ λ q. ground (arith, h.0)
        | false ↦ λ q. All-lookup P k m h.1 q
      ]

-- Every key stands once.
module _ {ℓ} {K V : Type ℓ} ⦃e : Eq K⦄ where
  abbrev pub Distinct : Dict K V → Type ℓ
  Distinct [] = Unit {ℓ}
  Distinct ((k, v) ∷ m) = (lookup k m ≡ none) × Distinct m

  pub Distinct-insert : (k : K) (v : V) (m : Dict K V) → Distinct m → Distinct (insert k v m)
  Distinct-insert k v [] d = (refl, tt)
  Distinct-insert k v ((j, w) ∷ m) d = elim (Bool-cases (e.beq j k)) [
    | inl q ↦ rw q (ap (λ i. lookup i m) (sym ((e.beq_iff j k).0 q)) ∙ d.0, d.1)
    | inr q ↦ rw q (lookup-insert k j v m ∙ other q, Distinct-insert k v m d.1)
  ]
    where
      other : e.beq j k ≡ false → (if e.beq k j then some v else lookup j m) ≡ none
      other q = ground (arith, e.beq_iff j k, e.beq_iff k j, d.0)

  pub Distinct-erase : (k : K) (m : Dict K V) → Distinct m → Distinct (erase k m)
  Distinct-erase k [] d = tt
  Distinct-erase k ((j, w) ∷ m) d = elim (Bool-cases (e.beq j k)) [
    | inl q ↦ rw q (Distinct-erase k m d.1)
    | inr q ↦ rw q (lookup-erase k j m ∙ gone, Distinct-erase k m d.1)
  ]
    where
      gone : (if e.beq k j then none else lookup j m) ≡ none
      gone = ground (arith, d.0)

  pub erase-absent : (k : K) (m : Dict K V) → lookup k m ≡ none → erase k m ≡ m
  erase-absent k [] h = refl
  erase-absent k ((j, w) ∷ m) h = ground (arith, erase-absent k m)
