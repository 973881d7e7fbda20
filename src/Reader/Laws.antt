-- ===== src/Reader/Laws.antt =====
-- Two judgements on readers. `Reads m bs a`: in front of any rest, `m` takes exactly the bytes `bs`
-- and returns `a`. `Spells m P`: whatever `m` returns, it took bytes `bs` from the front with
-- `P bs a` for the value `a`.
-- `Ends m bs a` is the first judgement at the end of the slice.
use rpc_utreexo_bridge.Base.{
  ℕ, zero, suc, ◌*◌, ◌≡◌, refl, ap, ◌∙◌, sym, subst, List, [], ◌∷◌, ◌++◌, append-nil, append_assoc,
  Result, ok, err, length, All, arith, length-append,
}
use rpc_utreexo_bridge.Bytes.{IsByte}
use rpc_utreexo_bridge.Reader.Defs.{Reader, pure, ◌>>=◌, repeat}

module _ {ℓ} {A : Type ℓ} where
  abbrev pub concat_map : (A → List ℕ) → List A → List ℕ
  concat_map enc [] = []
  concat_map enc (x ∷ xs) = enc x ++ concat_map enc xs

  pub length-concat_map :
      (enc : A → List ℕ) (n : ℕ) (xs : List A)
      → All (λ x. length (enc x) ≡ n) xs
      → length (concat_map enc xs) ≡ length xs * n
  length-concat_map enc n [] h = omega arith
  length-concat_map enc n (x ∷ xs) h =
      omega (arith, length-append (enc x) (concat_map enc xs), h.0, length-concat_map enc n xs h.1)

module _ {ℓ} {E : Type 0} {A : Type ℓ} where
  pub record Reads (m : Reader E A) (bs : List ℕ) (a : A) : Type ℓ where
    pub at : (rest : List ℕ) → m (bs ++ rest) ≡ ok (a, rest)

  -- `m` returns `a` on the whole slice, and nothing is left.
  pub record Ends (m : Reader E A) (bs : List ℕ) (a : A) : Type ℓ where
    pub whole : m bs ≡ ok (a, [])

  abbrev pub Spells : Reader E A → (List ℕ → A → Type 0) → Type ℓ
  Spells m P =
      (r rest : List ℕ) (a : A)
      → All IsByte r
      → m r ≡ ok (a, rest)
      → (bs : List ℕ) × (r ≡ bs ++ rest) × All IsByte rest × P bs a

  abbrev pub Drains : Reader E A → Type ℓ
  Drains m = (r rest : List ℕ) (a : A) → m r ≡ ok (a, rest) → rest ≡ []

  pub Spells-pure : (P : List ℕ → A → Type 0) (a : A) → P [] a → Spells (pure a) P
  Spells-pure P a p r rest b hr h =
      ([], ap tail_of h, subst (All IsByte) (ap tail_of h) hr, subst (P []) (ap head_of h) p)
    where
      tail_of : Result E (A × List ℕ) → List ℕ
      tail_of (ok (x, t)) = t
      tail_of (err e) = []

      head_of : Result E (A × List ℕ) → A
      head_of (ok (x, t)) = x
      head_of (err e) = a

module _ {ℓ κ} {E : Type 0} {A : Type ℓ} {B : Type κ} (m : Reader E A) (f : A → Reader E B) where
  pub bind-ok : (r r' : List ℕ) (a : A) → m r ≡ ok (a, r') → (m >>= f) r ≡ f a r'
  bind-ok r r' a h = rw (h, ◌>>=◌)

  pub Reads-bind :
      {bs cs : List ℕ} {a : A} {b : B}
      → Reads m bs a
      → Reads (f a) cs b
      → Reads (m >>= f) (bs ++ cs) b
  Reads-bind {bs} {cs} {a} {b} hm hf = record {
    at = λ rest.
        bind-ok ((bs ++ cs) ++ rest) (cs ++ rest) a
          (ap m (append_assoc bs cs rest) ∙ hm.at (cs ++ rest))
        ∙ hf.at rest;
  }

  -- The last step of a block adds no bytes.
  pub Reads-bind_pure :
      {bs : List ℕ} {a : A} {b : B} → Reads m bs a → Reads (f a) [] b → Reads (m >>= f) bs b
  Reads-bind_pure {bs} {a} hm hf = record {
    at = λ rest. bind-ok (bs ++ rest) rest a (hm.at rest) ∙ hf.at rest;
  }

  pub Ends-bind :
      {bs cs : List ℕ} {a : A} {b : B}
      → Reads m bs a
      → Ends (f a) cs b
      → Ends (m >>= f) (bs ++ cs) b
  Ends-bind {bs} {cs} {a} hm hf = record { whole = bind-ok (bs ++ cs) cs a (hm.at cs) ∙ hf.whole }

  bind-eq-ok_step :
      (q : Result E (A × List ℕ)) (rest : List ℕ) (b : B)
      → (elim q [ ok (a, r') ↦ f a r' | err e ↦ err e ]) ≡ ok (b, rest)
      → (a : A) × (r' : List ℕ) × (q ≡ ok (a, r')) × (f a r' ≡ ok (b, rest))
  bind-eq-ok_step (ok (a, r')) rest b h = (a, r', refl, h)
  bind-eq-ok_step (err e) rest b h = cc

  pub bind-eq-ok :
      (r rest : List ℕ) (b : B)
      → (m >>= f) r ≡ ok (b, rest)
      → (a : A) × (r' : List ℕ) × (m r ≡ ok (a, r')) × (f a r' ≡ ok (b, rest))
  bind-eq-ok r rest b h = bind-eq-ok_step (m r) rest b h

  -- A block whose last reader leaves nothing leaves nothing.
  pub Drains-bind : ((a : A) → Drains (f a)) → Drains (m >>= f)
  Drains-bind hf r rest b h = let (a, r', e, k) = bind-eq-ok r rest b h in hf a r' rest b k

  pub Spells-bind :
      (P : List ℕ → A → Type 0) (Q : List ℕ → B → Type 0)
      → Spells m P
      → ((a : A) (bs : List ℕ) → P bs a → Spells (f a) (λ cs b. Q (bs ++ cs) b))
      → Spells (m >>= f) Q
  Spells-bind P Q hm hf r rest b hr h =
      let (a, r', e, k) = bind-eq-ok r rest b h in
      let (bs, p, hr', pa) = hm r r' a hr e in
      let (cs, q, hrest, qb) = hf a bs pa r' rest b hr' k in
      (bs ++ cs, p ∙ ap (◌++◌ bs) q ∙ sym (append_assoc bs cs rest), hrest, qb)

module _ {ℓ} {E : Type 0} {A : Type ℓ} (m : Reader E A) (enc : A → List ℕ) where
  pub Reads-repeat :
      (xs : List A)
      → All (λ x. Reads m (enc x) x) xs
      → Reads (repeat (length xs) m) (concat_map enc xs) xs
  unfolding repeat
  Reads-repeat [] h = record { at = λ rest. refl }
  Reads-repeat (x ∷ xs) h = Reads-bind m _ h.0 (
      Reads-bind_pure (repeat (length xs) m) _ (Reads-repeat xs h.1) (record { at = λ rest. refl }))

  -- Each item satisfies `V`, and the count is the one that was asked for.
  pub Spells-repeat :
      (V : A → Type 0)
      → Spells m (λ bs a. (bs ≡ enc a) × V a)
      → (n : ℕ)
      → Spells (repeat n m) (λ bs xs. (bs ≡ concat_map enc xs) × All V xs × (length xs ≡ n))
  unfolding repeat
  Spells-repeat V ex zero = Spells-pure _ [] (refl, tt, refl)
  Spells-repeat V ex (suc n) = Spells-bind m _ _ _ ex (λ x bs hx.
      Spells-bind (repeat n m) _ _ _ (Spells-repeat V ex n) (λ xs cs hxs.
        Spells-pure _ (x ∷ xs) (cc (hx.0, hxs.0, append-nil cs), (hx.1, hxs.1), ap suc hxs.2)))
