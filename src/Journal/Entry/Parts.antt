-- ===== src/Journal/Entry/Parts.antt =====
-- src/forest_journal.rs: the bytes that the parts of `decode_entry` accept.
use Prim.Native.Nat.{bit_and}
use rpc_utreexo_bridge.Base.{
  ℕ, zero, suc, ◌^◌, ◌≤◌, ◌<◌, ◌≡◌, refl, ap, ◌∙◌, sym, subst, Bool, true, false, not, ◌==◌, Option,
  none, some, List, [], ◌∷◌, ◌++◌, append-nil, length, All, All-take, All-drop, take, drop,
  take-append-drop, length-take_of_le, ok, arith,
}
use rpc_utreexo_bridge.Bytes.{
  IsByte, IsBytes, to_le_bytes, from_le_bytes, to_le_bytes-from_le_bytes, from_le_bytes_lt,
}
use rpc_utreexo_bridge.Bytes.Bits.{low_two_bits}
use rpc_utreexo_bridge.Reader.{guard, Spells, Spells-bind, Spells-pure}
use rpc_utreexo_bridge.Journal.Entry.Types.{
  JournalNodeState, EntryError, IsTypedState, IsTypedForestDelta, IsTypedIndexDelta, RowsFit,
}
use rpc_utreexo_bridge.Journal.Entry.Encode.{state_flags}
use rpc_utreexo_bridge.Journal.Entry.Layout.{state_layout, forest_layout, index_layout, rows_layout}
use rpc_utreexo_bridge.Journal.Entry.Decode.{
  first_byte, take_array, take_u32, take_u64, check_len, take_len, decode_state,
  decode_forest_delta, decode_index_delta, decode_rows,
}

take_array-eq-ok :
    (n : ℕ) (r rest a : List ℕ)
    → take_array n r ≡ ok (a, rest)
    → (n ≤ length r) × (take n r ≡ a) × (drop n r ≡ rest)
unfolding take_array
take_array-eq-ok n r rest a h = ground arith

pub take_array-Spells : (n : ℕ) → Spells (take_array n) (λ bs a. (bs ≡ a) × IsBytes n a)
take_array-Spells n r rest a hr h =
    let (fits, front, back) = take_array-eq-ok n r rest a h in
    (
      take n r,
      sym (take-append-drop n r) ∙ ap (◌++◌ (take n r)) back,
      subst (All IsByte) back (All-drop IsByte n r hr),
      (
        front,
        (
          ap length (sym front) ∙ length-take_of_le n r fits,
          subst (All IsByte) front (All-take IsByte n r hr),
        ),
      ),
    )

-- The bytes of an unsigned integer are those that it is written by.
from_le_bytes-spelled :
    (k : ℕ) (bs a : List ℕ)
    → (bs ≡ a) × IsBytes k a
    → (bs ++ [] ≡ to_le_bytes k (from_le_bytes a)) × (from_le_bytes a < 256 ^ k)
from_le_bytes-spelled k bs a (e, (l, h)) = (
  append-nil bs
      ∙ e
      ∙ sym (to_le_bytes-from_le_bytes a h)
      ∙ ap (λ (n : ℕ). to_le_bytes n (from_le_bytes a)) l,
  subst (λ (n : ℕ). from_le_bytes a < 256 ^ n) l (from_le_bytes_lt a h),
)

pub take_u32-Spells : Spells take_u32 (λ bs v. (bs ≡ to_le_bytes 4 v) × (v < 256 ^ 4))
unfolding take_u32
take_u32-Spells =
    Spells-bind (take_array 4) _ _ _ (take_array-Spells 4)
      (λ a bs h. Spells-pure _ (from_le_bytes a) (from_le_bytes-spelled 4 bs a h))

pub take_u64-Spells : Spells take_u64 (λ bs v. (bs ≡ to_le_bytes 8 v) × (v < 256 ^ 8))
unfolding take_u64
take_u64-Spells =
    Spells-bind (take_array 8) _ _ _ (take_array-Spells 8)
      (λ a bs h. Spells-pure _ (from_le_bytes a) (from_le_bytes-spelled 8 bs a h))

check_len-eq-ok :
    (size n m : ℕ) (r rest : List ℕ) → check_len size n r ≡ ok (m, rest) → (n ≡ m) × (r ≡ rest)
unfolding check_len
check_len-eq-ok size n m r rest h = ground arith

pub take_len-Spells :
    (size : ℕ) → Spells (take_len size) (λ bs n. (bs ≡ to_le_bytes 4 n) × (n < 2 ^ 32))
unfolding take_len
take_len-Spells size = Spells-bind take_u32 _ _ _ take_u32-Spells λ n bs h r rest m hr e.
    let (same, left) = check_len-eq-ok size n m r rest e in
    (
      [],
      left,
      subst (All IsByte) left hr,
      (append-nil bs ∙ h.0 ∙ ap (to_le_bytes 4) same, omega (arith, h.1, same)),
    )

guard-Spells : (b : Bool) (e : EntryError) → Spells (guard b e) (λ bs _. (bs ≡ []) × (b ≡ true))
guard-Spells true e = Spells-pure _ tt (refl, refl)
guard-Spells false e = λ r rest a hr h. cc

flags_of_byte :
    (b : ℕ) (hash : List ℕ)
    → b ≤ 3
    → state_flags
        (record { ready = not (bit_and b 1 == 0); spent = not (bit_and b 2 == 0); hash = hash })
      ≡ b
unfolding state_flags
flags_of_byte zero hash h = refl
flags_of_byte (suc zero) hash h = refl
flags_of_byte (suc (suc zero)) hash h = refl
flags_of_byte (suc (suc (suc zero))) hash h = refl
flags_of_byte (suc (suc (suc (suc b)))) hash h = absurd (omega arith)

one_byte : (a : List ℕ) → IsBytes 1 a → (a ≡ first_byte a ∷ []) × (first_byte a < 256)
one_byte [] h = absurd (omega (arith, h.0))
one_byte (b ∷ []) h = (refl, h.1.0)
one_byte (b ∷ c ∷ bs) h = absurd (omega (arith, h.0))

decode_state-Spells : Spells decode_state (λ bs s. (bs ≡ state_layout s) × IsTypedState s)
unfolding decode_state
decode_state-Spells = Spells-bind (take_array 1) _ _ _ (take_array-Spells 1) λ a as' ha.
    Spells-bind (guard (bit_and (first_byte a) 0xfc == 0) _) _ _ _ (guard-Spells _ _) λ u bs hu.
      Spells-bind (take_array 32) _ _ _ (take_array-Spells 32)
        λ hash cs hh. Spells-pure _ _ (spelled a as' bs hash cs ha hu hh)
  where
    spelled :
        (a as' bs hash cs : List ℕ)
        → (as' ≡ a) × IsBytes 1 a
        → (bs ≡ []) × ((bit_and (first_byte a) 0xfc == 0) ≡ true)
        → (cs ≡ hash) × IsBytes 32 hash
        → let s : JournalNodeState = record {
          ready = not (bit_and (first_byte a) 1 == 0);
          spent = not (bit_and (first_byte a) 2 == 0);
          hash = hash;
        } in
          (as' ++ (bs ++ (cs ++ [])) ≡ state_layout s) × IsTypedState s
    spelled a as' bs hash cs ha hu hh =
        let (one, small) = one_byte a ha.1 in
        let flags = flags_of_byte (first_byte a) hash (low_two_bits (first_byte a) small hu.1) in
        (rw (ha.0, hu.0, hh.0, append-nil hash, flags) (ap (λ (x : List ℕ). x ++ hash) one), hh.1)

pub decode_forest_delta-Spells :
    Spells decode_forest_delta (λ bs d. (bs ≡ forest_layout d) × IsTypedForestDelta d)
unfolding decode_forest_delta
decode_forest_delta-Spells = Spells-bind take_u64 _ _ _ take_u64-Spells λ position ps hp.
    Spells-bind decode_state _ _ _ decode_state-Spells λ before bs hb.
      Spells-bind decode_state _ _ _ decode_state-Spells λ after as' ha.
        Spells-pure _ _ (rw (hp.0, hb.0, ha.0, append-nil (state_layout after)), (hp.1, hb.1, ha.1))

pub decode_index_delta-Spells :
    Spells decode_index_delta (λ bs d. (bs ≡ index_layout d) × IsTypedIndexDelta d)
unfolding decode_index_delta
decode_index_delta-Spells = Spells-bind (take_array 32) _ _ _ (take_array-Spells 32) λ txid ts ht.
    Spells-bind take_u32 _ _ _ take_u32-Spells λ vout vs hv.
      Spells-bind take_u64 _ _ _ take_u64-Spells λ position ps hp.
        Spells-pure _ _
          (rw (ht.0, hv.0, hp.0, append-nil (to_le_bytes 8 position)), (ht.1, hv.1, hp.1))

pub decode_rows-eq-ok :
    (r rest : List ℕ) (rows : Option ℕ)
    → decode_rows r ≡ ok (rows, rest)
    → (r ≡ rows_layout rows) × (rest ≡ []) × RowsFit rows
unfolding decode_rows
decode_rows-eq-ok [] rest none h = ground arith
decode_rows-eq-ok [] rest (some rows) h = cc
decode_rows-eq-ok (b ∷ []) rest none h = ground arith
decode_rows-eq-ok (b ∷ []) rest (some rows) h = ground arith
decode_rows-eq-ok (b ∷ c ∷ r) rest rows h = cc

pub decode_rows-Spells : Spells decode_rows (λ bs rows. (bs ≡ rows_layout rows) × RowsFit rows)
decode_rows-Spells r rest rows hr h =
    let (spelled, left, fit) = decode_rows-eq-ok r rest rows h in
    (r, sym (ap (◌++◌ r) left ∙ append-nil r), subst (All IsByte) (sym left) tt, (spelled, fit))
