-- ===== src/Base/Outcome.antt =====
-- Rust's `Result`: a value or an error, with the `?` operator as the bind of a `do` block.
use mathlib.Core.Path.{Path, ◌≡◌, refl}
use mathlib.Core.Logic.{◌⊎◌, inl, inr}
use mathlib.Core.Bool.{Bool, true, false}
use mathlib.Core.Option.{Option, none, some}

pub data Result {ℓ} (E : Type 0) (A : Type ℓ) : Type ℓ where
  ok : A → Result E A
  err : E → Result E A

module _ {Error : Type 0} where
  -- `if !test { bail!(failure) }`
  abbrev pub guard : Bool → Error → Result Error (Unit {0})
  guard false failure = err failure
  guard true failure = ok tt

  infixl 5 ◌>>=◌
  abbrev pub ◌>>=◌ {ℓ κ} :
      {A : Type ℓ} {B : Type κ} → Result Error A → (A → Result Error B) → Result Error B
  ◌>>=◌ (err failure) next = err failure
  ◌>>=◌ (ok value) next = next value

  infixl 5 ◌>>◌
  abbrev pub ◌>>◌ {ℓ} : {B : Type ℓ} → Result Error (Unit {0}) → Result Error B → Result Error B
  first >> second = first >>= λ _. second

  -- `option.context(e)?`
  abbrev pub ok_or {ℓ} : {A : Type ℓ} → Option A → Error → Result Error A
  ok_or none e = err e
  ok_or (some a) e = ok a

  pub Result-cases {ℓ} :
      {A : Type ℓ} (r : Result Error A) → ((a : A) × (r ≡ ok a)) ⊎ ((e : Error) × (r ≡ err e))
  Result-cases (ok a) = inl (a, refl)
  Result-cases (err e) = inr (e, refl)

  -- A chain that succeeds has a first step that succeeds.
  pub >>=-eq-ok {ℓ κ} :
      {A : Type ℓ} {B : Type κ} (first : Result Error A) (next : A → Result Error B) {end : B}
      → (first >>= next) ≡ ok end
      → (mid : A) × (first ≡ ok mid) × (next mid ≡ ok end)
  >>=-eq-ok (err failure) next stopped = cc
  >>=-eq-ok (ok mid) next reached = (mid, refl, reached)

  pub guard-eq-ok : (b : Bool) (e : Error) {u : Unit {0}} → guard b e ≡ ok u → b ≡ true
  guard-eq-ok true e h = refl
  guard-eq-ok false e h = cc

pub ok_inj {ℓ} : {E : Type 0} {A : Type ℓ} {a b : A} → Path (Result E A) (ok a) (ok b) → a ≡ b
ok_inj h = cc h
