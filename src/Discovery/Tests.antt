-- ===== src/Discovery/Tests.antt =====
-- The theorems of discovery.go on concrete members.
use olricdb.Prelude.{ℕ, ◌≡◌, sym, ap, ◌∙◌, List, [], ◌∷◌, inl, inr}
use native.Mathlib.Omega.{arith}
use olricdb.Discovery.{Host, Node, get_coordinator}
use olricdb.Discovery.Coordinator.{IsMember, coordinator_agreed}

-- The metadata is the birthdate itself.
abbrev decode : List ℕ → ℕ
decode [] = 0
decode (b ∷ bs) = b

abbrev young : Node
young = record { name = 97 ∷ []; meta = 20 ∷ [] }

abbrev old : Node
old = record { name = 98 ∷ []; meta = 10 ∷ [] }

swapped :
    (m : Host)
    → (IsMember decode (young ∷ old ∷ []) m → IsMember decode (old ∷ young ∷ []) m)
      × (IsMember decode (old ∷ young ∷ []) m → IsMember decode (young ∷ old ∷ []) m)
swapped m = (
  λ i. elim i [ inl e ↦ inr (inl e) | inr j ↦ elim j [ inl e ↦ inl e | inr n ↦ absurd n ] ],
  λ i. elim i [ inl e ↦ inr (inl e) | inr j ↦ elim j [ inl e ↦ inl e | inr n ↦ absurd n ] ],
)

apart :
    (a b : Host)
    → IsMember decode (young ∷ old ∷ []) a
    → IsMember decode (young ∷ old ∷ []) b
    → a.birthdate ≡ b.birthdate
    → a ≡ b
apart a b (inl e) (inl f) q = cc
apart a b (inl e) (inr (inl f)) q =
    absurd (clash (sym (ap (λ (h : Host). h.birthdate) e) ∙ q ∙ ap (λ (h : Host). h.birthdate) f))
  where
    clash : ◌≡◌ {A = ℕ} 20 10 → ⊥
    clash r = omega (arith, r)
apart a b (inl e) (inr (inr n)) q = absurd n
apart a b (inr (inl e)) (inl f) q =
    absurd (clash (sym (ap (λ (h : Host). h.birthdate) e) ∙ q ∙ ap (λ (h : Host). h.birthdate) f))
  where
    clash : ◌≡◌ {A = ℕ} 10 20 → ⊥
    clash r = omega (arith, r)
apart a b (inr (inl e)) (inr (inl f)) q = cc
apart a b (inr (inl e)) (inr (inr n)) q = absurd n
apart a b (inr (inr n)) i q = absurd n

coordinator_agreed_example :
    get_coordinator decode (young ∷ old ∷ []) ≡ get_coordinator decode (old ∷ young ∷ [])
coordinator_agreed_example =
    coordinator_agreed decode young old (old ∷ []) (young ∷ []) swapped apart
