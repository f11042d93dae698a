-- ===== src/Prelude/Results.antt =====
-- What a Go call comes to: a value, an error value, a panic, or no result at all within the fuel.

pub data Outcome {ℓ} (E A : Type ℓ) : Type ℓ where
  ok : A → Outcome E A
  fails : E → Outcome E A
  panics : Outcome E A
  stuck : Outcome E A

infixl 5 ◌>>=◌
abbrev pub ◌>>=◌ {ℓ} : {E A B : Type ℓ} → Outcome E A → (A → Outcome E B) → Outcome E B
ok a >>= f = f a
fails e >>= f = fails e
panics >>= f = panics
stuck >>= f = stuck
