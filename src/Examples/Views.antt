-- ===== src/Examples/Views.antt =====
-- src/chainview.rs: a store in memory, and a header that is saved in it.
use rpc_utreexo_bridge.Base.{
  ℕ, ◌≡◌, ◌≢◌, inl, inr, ◌∙◌, ap, sym, refl, false, Option, none, some, List, [], ◌∷◌, Bool-cases,
  ◌==◌, if◌then◌else◌, if_true, if_false, Result, ok, arith,
}
use rpc_utreexo_bridge.Bytes.{to_be_bytes, bytes_eq, bytes_eq_refl, bytes_eq→eq}
use rpc_utreexo_bridge.ChainView.{
  Bucket, roots, headers, index, reverse_index, Store, Other, IsStore, get_block_hash, get_height,
  get_block, save_block_hash, save_height, save_header, save-get,
}

abbrev pub Memory : Type 0
Memory = List ℕ → Option (List ℕ)

-- A bucket's number, in front of its keys.
abbrev pub number_of : Bucket → ℕ
number_of roots = 0
number_of headers = 1
number_of index = 2
number_of reverse_index = 3

abbrev bucket_of : ℕ → Bucket
bucket_of n =
    if n == 0 then roots else if n == 1 then headers else if n == 2 then index else reverse_index

bucket_of-number_of : (b : Bucket) → bucket_of (number_of b) ≡ b
bucket_of-number_of roots = refl
bucket_of-number_of headers = refl
bucket_of-number_of index = refl
bucket_of-number_of reverse_index = refl

abbrev pub memory_get : Bucket → List ℕ → Memory → Option (List ℕ)
memory_get b k s = s (number_of b ∷ k)

abbrev pub memory_set : Bucket → List ℕ → List ℕ → Memory → Memory
memory_set b k v s key = if bytes_eq key (number_of b ∷ k) then some v else s key

abbrev pub in_memory : Store Memory (Unit {0})
in_memory = record {
  get = λ b k s. ok (memory_get b k s);
  set = λ b k v s. (memory_set b k v s, ok tt);
}

unfoldable head_or : List ℕ → ℕ
head_or [] = 0
head_or (a ∷ as') = a

same_entry :
    (b b' : Bucket) (k k' : List ℕ) → Other b k b' k' → (number_of b ∷ k) ≢ (number_of b' ∷ k')
unfolding head_or
same_entry b b' k k' (inl other) e =
    other (sym (bucket_of-number_of b) ∙ ap bucket_of (ap head_or e) ∙ bucket_of-number_of b')
same_entry b b' k k' (inr other) e = other (cc e)

bytes_eq-Other :
    (b b' : Bucket) (k k' : List ℕ)
    → Other b k b' k'
    → bytes_eq (number_of b ∷ k) (number_of b' ∷ k') ≡ false
bytes_eq-Other b b' k k' other =
    elim (Bool-cases (bytes_eq (number_of b ∷ k) (number_of b' ∷ k'))) [
      | inl e ↦ absurd (same_entry b b' k k' other (bytes_eq→eq _ _ e))
      | inr e ↦ e
    ]

memory_get-memory_set :
    (b : Bucket) (k v : List ℕ) (s : Memory) → memory_get b k (memory_set b k v s) ≡ some v
memory_get-memory_set b k v s = if_true _ _ (bytes_eq_refl (number_of b ∷ k))

memory_get-Other :
    (b b' : Bucket) (k k' v : List ℕ) (s : Memory)
    → Other b k b' k'
    → memory_get b k (memory_set b' k' v s) ≡ memory_get b k s
memory_get-Other b b' k k' v s other = if_false _ _ (bytes_eq-Other b b' k k' other)

after_set :
    (b : Bucket) (k v : List ℕ) (s s' : Memory) (r : Result (Unit {0}) (Unit {0}))
    → in_memory.set b k v s ≡ (s', r)
    → s' ≡ memory_set b k v s
after_set b k v s s' r h = sym (ap (λ p. p.0) h)

in_memory-IsStore : IsStore in_memory
in_memory-IsStore = record {
  get_set = λ b k v s s' h.
      ap (λ m. ok (memory_get b k m)) (after_set b k v s s' (ok tt) h)
      ∙ ap ok (memory_get-memory_set b k v s);
  get_other = λ b b' k k' v s s' r h other.
      ap (λ m. ok (memory_get b k m)) (after_set b' k' v s s' r h)
      ∙ ap ok (memory_get-Other b b' k k' v s other);
}

abbrev pub empty_memory : Memory
empty_memory key = none

abbrev a_hash : List ℕ
a_hash = to_be_bytes 32 7

abbrev a_header : List ℕ
a_header = 1 ∷ 2 ∷ 3 ∷ []

abbrev hash_saved : Memory
hash_saved = memory_set index (to_be_bytes 4 5) a_hash empty_memory

abbrev height_saved : Memory
height_saved = memory_set reverse_index a_hash (to_be_bytes 4 5) hash_saved

abbrev header_saved : Memory
header_saved = memory_set headers a_hash a_header height_saved

save-get_example :
    (get_block_hash in_memory 5 header_saved ≡ ok (some a_hash))
    × (get_height in_memory a_hash header_saved ≡ ok (some 5))
    × (get_block in_memory a_hash header_saved ≡ ok (some a_header))
unfolding to_be_bytes save_block_hash save_height save_header
save-get_example =
    save-get in_memory in_memory-IsStore a_hash a_header 5 empty_memory hash_saved height_saved
      header_saved refl (omega arith) refl refl refl
