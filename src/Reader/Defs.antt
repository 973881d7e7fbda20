-- ===== src/Reader/Defs.antt =====
-- The reader monad and the loop that reads a counted sequence.
use rpc_utreexo_bridge.Base.{ℕ, zero, suc, Bool, true, false, List, [], ◌∷◌, Result, ok, err}

abbrev pub Reader {ℓ} : Type 0 → Type ℓ → Type ℓ
Reader E A = List ℕ → Result E (A × List ℕ)

module _ {E : Type 0} where
  abbrev pub pure {ℓ} : {A : Type ℓ} → A → Reader E A
  pure a r = ok (a, r)

  infixl 5 ◌>>=◌ ◌>>◌
  abbrev pub ◌>>=◌ {ℓ κ} : {A : Type ℓ} {B : Type κ} → Reader E A → (A → Reader E B) → Reader E B
  ◌>>=◌ m f r = elim (m r) [ ok (a, r') ↦ f a r' | err e ↦ err e ]

  abbrev pub ◌>>◌ {ℓ} : {B : Type ℓ} → Reader E (Unit {0}) → Reader E B → Reader E B
  m >> k = m >>= λ _. k

  abbrev pub guard : Bool → E → Reader E (Unit {0})
  guard true e r = ok (tt, r)
  guard false e r = err e

  -- `for _ in 0..n { items.push(read(reader)?) }`
  unfoldable pub repeat {ℓ} : {A : Type ℓ} → ℕ → Reader E A → Reader E (List A)
  repeat zero m = pure []
  repeat (suc n) m = do x ← m; xs ← repeat n m; pure (x ∷ xs)
