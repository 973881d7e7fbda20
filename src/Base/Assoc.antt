-- ===== src/Base/Assoc.antt =====
-- Hash maps as association lists: a map has the entries of its list, and is iterated in the order
-- of the list, so that a statement for every list covers every order of iteration.
use Prim.Native.Nat.{ℕ, suc, ◌+◌, ◌≤◌, ◌<◌}
use mathlib.Core.Path.{Path, ◌≡◌, refl, subst}
use mathlib.Core.Logic.{◌↔◌, inl, inr}
use mathlib.Core.Bool.{Bool, true, false, ◌||◌, or-true}
use mathlib.Core.Option.{Option, none, some}
use mathlib.Core.List.{List, [], ◌∷◌}
use native.Mathlib.Omega.{arith}
use rpc_utreexo_bridge.Base.Tests.{if◌then◌else◌, ◌==◌, ==_iff, Bool-cases}
use rpc_utreexo_bridge.Base.Lists.{length, All, All-map}

pub record Eq (A : Type 0) : Type 0 where
  pub beq : A → A → Bool
  pub beq_iff : (a b : A) → (beq a b ≡ true) ↔ (a ≡ b)

instance abbrev pub nat_eq : Eq ℕ
nat_eq = record { beq = ◌==◌; beq_iff = ==_iff }

module _ {ℓ} {A : Type ℓ} where
  -- `retain`, `filter`
  unfoldable pub retain : (A → Bool) → List A → List A
  retain keep [] = []
  retain keep (x ∷ xs) = if keep x then x ∷ retain keep xs else retain keep xs

  unfoldable pub any : (A → Bool) → List A → Bool
  any test [] = false
  any test (x ∷ xs) = test x || any test xs

  unfoldable pub count : (A → Bool) → List A → ℕ
  count test [] = 0
  count test (x ∷ xs) = (if test x then 1 else 0) + count test xs

  pub length-retain-le : (keep : A → Bool) (xs : List A) → length (retain keep xs) ≤ length xs
  unfolding retain
  length-retain-le keep [] = omega arith
  length-retain-le keep (x ∷ xs) = ground (arith, length-retain-le keep xs)

  pub All-retain {κ} :
      (P : A → Type κ) (keep : A → Bool) (xs : List A) → All P xs → All P (retain keep xs)
  unfolding retain
  All-retain P keep [] h = tt
  All-retain P keep (x ∷ xs) h = elim (Bool-cases (keep x)) [
    | inl kept ↦ rw kept (h.0, All-retain P keep xs h.1)
    | inr gone ↦ rw gone (All-retain P keep xs h.1)
  ]

  pub retain-All : (keep : A → Bool) (xs : List A) → All (λ x. keep x ≡ true) (retain keep xs)
  unfolding retain
  retain-All keep [] = tt
  retain-All keep (x ∷ xs) = elim (Bool-cases (keep x)) [
    | inl kept ↦ rw kept (kept, retain-All keep xs)
    | inr gone ↦ rw gone (retain-All keep xs)
  ]

pub beq_refl : {K : Type 0} ⦃e : Eq K⦄ (k : K) → e.beq k k ≡ true
beq_refl ⦃e⦄ k = (e.beq_iff k k).1 refl

pub beq_sym_false : {K : Type 0} ⦃e : Eq K⦄ (j k : K) → e.beq j k ≡ false → e.beq k j ≡ false
beq_sym_false ⦃e⦄ j k h = elim (Bool-cases (e.beq k j)) [
  | inl same ↦ cc (h, beq_refl j, (e.beq_iff k j).0 same)
  | inr other ↦ other
]

module _ {K : Type 0} {V : Type 0} ⦃e : Eq K⦄ where
  unfoldable pub get : K → List (K × V) → Option V
  get k [] = none
  get k ((j, v) ∷ m) = if e.beq j k then some v else get k m

  unfoldable pub contains_key : K → List (K × V) → Bool
  contains_key k [] = false
  contains_key k ((j, v) ∷ m) = e.beq j k || contains_key k m

  unfoldable pub remove : K → List (K × V) → List (K × V)
  remove k [] = []
  remove k ((j, v) ∷ m) = if e.beq j k then remove k m else (j, v) ∷ remove k m

  -- A new entry replaces the one under the same key.
  unfoldable pub insert : K → V → List (K × V) → List (K × V)
  insert k v m = (k, v) ∷ remove k m

  pub get-nil : (k : K) → Path (Option V) (get k []) none
  unfolding get
  get-nil k = refl

  pub get-remove_self : (k : K) (m : List (K × V)) → get k (remove k m) ≡ none
  unfolding get remove
  get-remove_self k [] = refl
  get-remove_self k ((j, v) ∷ m) = elim (Bool-cases (e.beq j k)) [
    | inl same ↦ rw same (get-remove_self k m)
    | inr other ↦ rw (other, get, other) (get-remove_self k m)
  ]

  pub get-insert_self : (k : K) (v : V) (m : List (K × V)) → get k (insert k v m) ≡ some v
  unfolding get insert
  get-insert_self k v m = rw (beq_refl k)

  pub length-remove-le : (k : K) (m : List (K × V)) → length (remove k m) ≤ length m
  unfolding remove
  length-remove-le k [] = omega arith
  length-remove-le k ((j, v) ∷ m) = ground (arith, length-remove-le k m)

  -- Removing a key that is there makes the map smaller.
  pub length-remove_found :
      (k : K) (m : List (K × V)) {v : V} → get k m ≡ some v → suc (length (remove k m)) ≤ length m
  unfolding get remove
  length-remove_found k [] h = cc
  length-remove_found k ((j, v) ∷ m) h = elim (Bool-cases (e.beq j k)) [
    | inl same ↦ rw (same, remove) (omega (arith, length-remove-le k m))
    | inr other ↦ rw (other, remove) (omega (arith, length-remove_found k m (rw (other, get) at h)))
  ]

  pub length-insert-le : (k : K) (v : V) (m : List (K × V)) → length (insert k v m) ≤ suc (length m)
  unfolding insert
  length-insert-le k v m = omega (arith, length-remove-le k m)

  pub All-remove {κ} :
      (P : K × V → Type κ) (k : K) (m : List (K × V)) → All P m → All P (remove k m)
  unfolding remove
  All-remove P k [] h = tt
  All-remove P k ((j, v) ∷ m) h = elim (Bool-cases (e.beq j k)) [
    | inl same ↦ rw same (All-remove P k m h.1)
    | inr other ↦ rw other (h.0, All-remove P k m h.1)
  ]

  pub remove-All : (k : K) (m : List (K × V)) → All (λ x. e.beq x.0 k ≡ false) (remove k m)
  unfolding remove
  remove-All k [] = tt
  remove-All k ((j, v) ∷ m) = elim (Bool-cases (e.beq j k)) [
    | inl same ↦ rw same (remove-All k m)
    | inr other ↦ rw other (other, remove-All k m)
  ]

  -- What holds of every entry holds of the one a lookup finds.
  pub All-get {κ} :
      (P : K × V → Type κ) (k : K) (m : List (K × V)) {v : V}
      → All P m
      → get k m ≡ some v
      → P (k, v)
  unfolding get
  All-get P k [] all h = cc
  All-get P k ((j, w) ∷ m) all h = elim (Bool-cases (e.beq j k)) [
    | inl same ↦ subst P (cc (h, rw (same, get) at h, (e.beq_iff j k).0 same)) all.0
    | inr other ↦ All-get P k m all.1 (rw (other, get) at h)
  ]

  pub get-remove_other :
      (k j : K) (m : List (K × V)) → e.beq j k ≡ false → get k (remove j m) ≡ get k m
  unfolding get remove
  get-remove_other k j [] h = refl
  get-remove_other k j ((i, v) ∷ m) h =
      let rest = get-remove_other k j m h in
      elim (Bool-cases (e.beq i j)) [
        | inl same ↦ rw (same, (e.beq_iff i j).0 same, get, h) rest
        | inr other ↦ rw (other, get, rest) refl
      ]

  pub contains_key-remove_other :
      (k j : K) (m : List (K × V))
      → e.beq j k ≡ false
      → contains_key k (remove j m) ≡ contains_key k m
  unfolding contains_key remove
  contains_key-remove_other k j [] h = refl
  contains_key-remove_other k j ((i, v) ∷ m) h =
      let rest = contains_key-remove_other k j m h in
      elim (Bool-cases (e.beq i j)) [
        | inl same ↦ rw (same, (e.beq_iff i j).0 same, contains_key, h) rest
        | inr other ↦ rw (other, contains_key, rest) refl
      ]

  pub get-insert :
      (k j : K) (v : V) (m : List (K × V))
      → get k (insert j v m) ≡ (if e.beq j k then some v else get k m)
  unfolding get insert
  get-insert k j v m = elim (Bool-cases (e.beq j k)) [
    | inl same ↦ rw same
    | inr other ↦ rw other (get-remove_other k j m other)
  ]

  -- Removing a key that some entry has makes the map smaller.
  pub length-remove_contained :
      (k : K) (m : List (K × V)) → contains_key k m ≡ true → length (remove k m) < length m
  unfolding contains_key remove
  length-remove_contained k [] h = cc
  length-remove_contained k ((j, v) ∷ m) h = elim (Bool-cases (e.beq j k)) [
    | inl same ↦ rw (same, remove) (omega (arith, length-remove-le k m))
    | inr other ↦
        rw (other, remove)
          (omega (arith, length-remove_contained k m (rw (other, contains_key) at h)))
  ]

  -- Every entry's key is contained.
  pub keys-contained : (m : List (K × V)) → All (λ x. contains_key x.0 m ≡ true) m
  unfolding contains_key
  keys-contained [] = tt
  keys-contained ((j, v) ∷ m) =
      (rw (beq_refl j) refl, All-map (λ x h. rw h (or-true (e.beq j x.0))) m (keys-contained m))

  pub All-insert {κ} :
      (P : K × V → Type κ) (k : K) (v : V) (m : List (K × V))
      → P (k, v)
      → All P m
      → All P (insert k v m)
  unfolding insert
  All-insert P k v m new old = (new, All-remove P k m old)
