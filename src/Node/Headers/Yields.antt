-- ===== src/Node/Headers/Yields.antt =====
-- src/node.rs: what the calls of the headers service keep and return, under an invariant of the
-- state.
use rpc_utreexo_bridge.Base.{◌≡◌, refl, subst, Bool, true, false, if◌then◌else◌, Result, ok, err}
use rpc_utreexo_bridge.ChainView.{ViewError}
use rpc_utreexo_bridge.Node.Headers.Defs.{
  HeadersError, Call, Serve, pure, after, ◌>>=◌, called, call, seen, view, kept, save, ok_or_next,
  next_unless_ok,
}

-- The invariant is kept, and a value that is returned has the property.
abbrev pub Holding :
    {W : Type 0} (P : W → Type 0) {R A : Type 0} → (A → Type 0) → W × Result R A → Type 0
Holding P {R} {A} Q q = P q.0 × ((a : A) → q.1 ≡ ok a → Q a)

module _ {W E : Type 0} (P : W → Type 0) where
  abbrev pub CallYields : {A : Type 0} → (A → Type 0) → Call W E A → Type 0
  CallYields Q m = (w : W) → P w → Holding P Q (m w)

  abbrev pub Yields : {A : Type 0} → (A → Type 0) → Serve W E A → Type 0
  Yields Q m = (w : W) → P w → Holding P Q (m w)

  -- A lookup changes nothing.
  abbrev pub ViewYields : {A : Type 0} → (A → Type 0) → (W → Result (ViewError E) A) → Type 0
  ViewYields {A} Q m = (w : W) → P w → (a : A) → m w ≡ ok a → Q a

  abbrev pub SaveKeeps : {A : Type 0} → (W → W × Result (ViewError E) A) → Type 0
  SaveKeeps m = (w : W) → P w → P (m w).0

  module _ {A : Type 0} (Q : A → Type 0) where
    pub Yields-pure : (a : A) → Q a → Yields Q (pure a)
    unfolding pure
    Yields-pure a q w p = (p, λ b e. subst Q (cc e) q)

    pub Yields-bind :
        {C : Type 0} (R : C → Type 0) (m : Serve W E C) (f : C → Serve W E A)
        → Yields R m
        → ((c : C) → R c → Yields Q (f c))
        → Yields Q (◌>>=◌ m f)
    unfolding ◌>>=◌
    Yields-bind {C} R m f first next w p = go (m w) (first w p)
      where
        go : (q : W × Result (HeadersError E) C) → Holding P R q → Holding P Q (after q f)
        go (v, ok c) (p', r) = next c (r c refl) v p'
        go (v, err e) (p', r) = (p', λ a h. cc h)

    pub Yields-if :
        (b : Bool) (m n : Serve W E A)
        → (b ≡ true → Yields Q m)
        → Yields Q n
        → Yields Q (if b then m else n)
    Yields-if true m n first second = first refl
    Yields-if false m n first second = second

    pub Yields-next :
        {C : Type 0} (R : C → Type 0) (m : Call W E C) (n : Serve W E A) (f : C → Serve W E A)
        → CallYields R m
        → Yields Q n
        → ((c : C) → R c → Yields Q (f c))
        → Yields Q (ok_or_next m n f)
    unfolding ok_or_next
    Yields-next {C} R m n f first other next w p = go (m w) (first w p)
      where
        go : (q : W × Result E C) → Holding P R q → Holding P Q (next_unless_ok q n f)
        go (v, ok c) (p', r) = next c (r c refl) v p'
        go (v, err e) (p', r) = other v p'

    pub Yields-call : (m : Call W E A) → CallYields Q m → Yields Q (call m)
    Yields-call m yields w p = go (m w) (yields w p)
      where
        go : (q : W × Result E A) → Holding P Q q → Holding P Q (called q)
        go (v, ok a) (p', r) = (p', λ b h. r b (cc h))
        go (v, err e) (p', r) = (p', λ b h. cc h)

    pub Yields-view : (m : W → Result (ViewError E) A) → ViewYields Q m → Yields Q (view m)
    Yields-view m yields w p = go (m w) (yields w p)
      where
        go : (r : Result (ViewError E) A) → ((a : A) → r ≡ ok a → Q a) → Holding P Q (seen w r)
        go (ok a) q = (p, λ b h. q b (cc h))
        go (err e) q = (p, λ b h. cc h)

  pub Yields-save :
      {A : Type 0} (m : W → W × Result (ViewError E) A)
      → SaveKeeps m
      → Yields (λ _. Unit {0}) (save m)
  Yields-save {A} m keeps w p = go (m w) (keeps w p)
    where
      go : (q : W × Result (ViewError E) A) → P q.0 → Holding P (λ _. Unit {0}) (kept q)
      go (v, ok a) p' = (p', λ b h. tt)
      go (v, err e) p' = (p', λ b h. tt)
