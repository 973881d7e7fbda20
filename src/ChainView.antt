-- ===== src/ChainView.antt =====
-- src/chainview.rs: headers by hash, hashes by height and heights by hash, in a store of the `kv`
-- crate. The store is a parameter: buckets that map keys to values, whose calls may fail.
use rpc_utreexo_bridge.Base.{
  ℕ, ◌^◌, ◌<◌, ◌≡◌, ◌≢◌, ◌⊎◌, inl, ◌∙◌, ap, refl, Option, none, some, List, length, ◌==◌,
  if◌then◌else◌, Result, ok, err, ◌>>=◌,
}
use rpc_utreexo_bridge.Bytes.{
  to_be_bytes, from_be_bytes, from_be_bytes-to_be_bytes, length-to_be_bytes,
}

pub data Bucket : Type 0 where
  roots headers index reverse_index : Bucket

-- `kv::Error`, or the panic of an `unwrap` on a value of another length.
pub data ViewError (E : Type 0) : Type 0 where
  kv_failed : E → ViewError E
  panicked : ViewError E

-- `Bucket::get` and `Bucket::set`, on the state of the store.
pub record Store (S E : Type 0) : Type 0 where
  pub get : Bucket → List ℕ → S → Result E (Option (List ℕ))
  pub set : Bucket → List ℕ → List ℕ → S → S × Result E (Unit {0})

-- Another entry: another bucket, or another key.
abbrev pub Other : Bucket → List ℕ → Bucket → List ℕ → Type 0
Other b k b' k' = (b ≢ b') ⊎ (k ≢ k')

-- What the crate documents: a value that was set is read back, and other entries stay.
pub record IsStore {S E : Type 0} (kv : Store S E) : Type 0 where
  pub get_set :
      (b : Bucket) (k v : List ℕ) (s s' : S)
      → kv.set b k v s ≡ (s', ok tt)
      → kv.get b k s' ≡ ok (some v)
  pub get_other :
      (b b' : Bucket) (k k' v : List ℕ) (s s' : S) (r : Result E (Unit {0}))
      → kv.set b' k' v s ≡ (s', r)
      → Other b k b' k'
      → kv.get b k s' ≡ kv.get b k s

module _ {S E : Type 0} (kv : Store S E) where
  abbrev pub found {ℓ} :
      {A : Type ℓ}
      → (List ℕ → Result (ViewError E) A)
      → Result E (Option (List ℕ))
      → Result (ViewError E) (Option A)
  found read (err e) = err (kv_failed e)
  found read (ok none) = ok none
  found read (ok (some bytes)) = read bytes >>= λ a. ok (some a)

  abbrev pub saved : S × Result E (Unit {0}) → S × Result (ViewError E) (Unit {0})
  saved (s, ok u) = (s, ok tt)
  saved (s, err e) = (s, err (kv_failed e))

  unfoldable pub get_acc : List ℕ → S → Result (ViewError E) (Option (List ℕ))
  get_acc hash s = found ok (kv.get roots hash s)

  unfoldable pub get_block : List ℕ → S → Result (ViewError E) (Option (List ℕ))
  get_block hash s = found ok (kv.get headers hash s)

  -- `BlockHash::from_slice(&hash).unwrap()`
  abbrev pub hash_of_slice : List ℕ → Result (ViewError E) (List ℕ)
  hash_of_slice bytes = if length bytes == 32 then ok bytes else err panicked

  unfoldable pub get_block_hash : ℕ → S → Result (ViewError E) (Option (List ℕ))
  get_block_hash height s = found hash_of_slice (kv.get index (to_be_bytes 4 height) s)

  -- `u32::from_be_bytes(height.as_slice().try_into().unwrap())`
  abbrev pub height_of_slice : List ℕ → Result (ViewError E) ℕ
  height_of_slice bytes = if length bytes == 4 then ok (from_be_bytes bytes) else err panicked

  unfoldable pub get_height : List ℕ → S → Result (ViewError E) (Option ℕ)
  get_height hash s = found height_of_slice (kv.get reverse_index hash s)

  unfoldable pub save_header : List ℕ → List ℕ → S → S × Result (ViewError E) (Unit {0})
  save_header hash header s = saved (kv.set headers hash header s)

  unfoldable pub save_block_hash : ℕ → List ℕ → S → S × Result (ViewError E) (Unit {0})
  save_block_hash height hash s = saved (kv.set index (to_be_bytes 4 height) hash s)

  unfoldable pub save_height : List ℕ → ℕ → S → S × Result (ViewError E) (Unit {0})
  save_height hash height s = saved (kv.set reverse_index hash (to_be_bytes 4 height) s)

  saved-eq-ok : (q : S × Result E (Unit {0})) {s' : S} → saved q ≡ (s', ok tt) → q ≡ (s', ok tt)
  saved-eq-ok (s, ok u) h = cc h
  saved-eq-ok (s, err e) h = cc h

  module _ (laws : IsStore kv) where
    height-found :
        (height : ℕ)
        → height < 256 ^ 4
        → found height_of_slice (ok (some (to_be_bytes 4 height))) ≡ ok (some height)
    height-found height h =
        rw (length-to_be_bytes 4 height, from_be_bytes-to_be_bytes 4 height h) refl

    hash-found :
        (hash : List ℕ) → length hash ≡ 32 → found hash_of_slice (ok (some hash)) ≡ ok (some hash)
    hash-found hash h = rw h refl

    -- Saving a hash of 32 bytes, a height in a u32 and a header, one after the other, as the server does with a header that it
    -- fetched: when the three saves succeed, all three are found, by the height and by the hash.
    pub save-get :
        (hash header : List ℕ) (height : ℕ) (s s1 s2 s3 : S)
        → length hash ≡ 32
        → height < 256 ^ 4
        → save_block_hash height hash s ≡ (s1, ok tt)
        → save_height hash height s1 ≡ (s2, ok tt)
        → save_header hash header s2 ≡ (s3, ok tt)
        → (get_block_hash height s3 ≡ ok (some hash))
          × (get_height hash s3 ≡ ok (some height))
          × (get_block hash s3 ≡ ok (some header))
    unfolding save_block_hash save_height save_header get_block_hash get_height get_block
    save-get hash header height s s1 s2 s3 h32 small first second third =
        let a = saved-eq-ok _ first in
        let b = saved-eq-ok _ second in
        let d = saved-eq-ok _ third in
        let key = to_be_bytes 4 height in
        let by_height : kv.get index key s3 ≡ ok (some hash) =
          laws.get_other index headers key hash header s2 s3 (ok tt) d (inl (λ e. cc e))
          ∙ laws.get_other index reverse_index key hash key s1 s2 (ok tt) b (inl (λ e. cc e))
          ∙ laws.get_set index key hash s s1 a in
        let by_hash : kv.get reverse_index hash s3 ≡ ok (some key) =
          laws.get_other reverse_index headers hash hash header s2 s3 (ok tt) d (inl (λ e. cc e))
          ∙ laws.get_set reverse_index hash key s1 s2 b in
        (
          ap (found hash_of_slice) by_height ∙ hash-found hash h32,
          ap (found height_of_slice) by_hash ∙ height-found height small,
          ap (found ok) (laws.get_set headers hash header s2 s3 d),
        )
