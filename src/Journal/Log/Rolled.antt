-- ===== src/Journal/Log/Rolled.antt =====
-- src/forest_journal.rs: the file and the records after the status byte of a record was written.
use rpc_utreexo_bridge.Base.{
  ℕ, zero, suc, ◌+◌, ◌%◌, ◌≤◌, ◌≡◌, refl, ap, ◌∙◌, sym, subst, inl, inr, List, [], ◌∷◌, ◌++◌, some,
  get_elem?, IsIn, arith, ◌⊎◌,
}
use rpc_utreexo_bridge.Bytes.{from_le_bytes}
use rpc_utreexo_bridge.File.{
  File, read_bytes, write_all_at, SameOn, read-SameOn, write-SameOn, bytes-write_self,
  len-write_inside,
}
use rpc_utreexo_bridge.Consensus.{BitcoinConsensus}
use rpc_utreexo_bridge.Journal.Record.Types.{
  BlockHeader, JournalRecord, rolled_back, to_byte, last_boundary, record_boundary,
}
use rpc_utreexo_bridge.Journal.Record.Held.{Held, Held-frame}
use rpc_utreexo_bridge.Journal.Record.Plan.{aligned-add}
use rpc_utreexo_bridge.Journal.Log.Operations.{roll_back_at}
use rpc_utreexo_bridge.Journal.Log.Chain.{Chain, Chain-frame, Chain-le, Chain-IsIn}

-- The boundary of the last record does not depend on the status of a record.
last_boundary-rolled :
    {H : Type 0} (id : List ℕ) (epoch page_size : ℕ) (rs : List (JournalRecord H)) (i : ℕ)
    → last_boundary id epoch page_size (roll_back_at rs i) ≡ last_boundary id epoch page_size rs
unfolding last_boundary roll_back_at record_boundary
last_boundary-rolled id epoch page_size [] i = refl
last_boundary-rolled id epoch page_size (r ∷ []) zero = refl
last_boundary-rolled id epoch page_size (r ∷ []) (suc i) = refl
last_boundary-rolled id epoch page_size (r ∷ s ∷ rs) zero = refl
last_boundary-rolled id epoch page_size (r ∷ s ∷ rs) (suc zero) =
    last_boundary-rolled id epoch page_size (s ∷ rs) zero
last_boundary-rolled id epoch page_size (r ∷ s ∷ rs) (suc (suc i)) =
    last_boundary-rolled id epoch page_size (s ∷ rs) (suc i)

pub last_boundary-rolled_behind :
    {H : Type 0} (id : List ℕ) (epoch page_size : ℕ) (xs ys : List (JournalRecord H)) (i : ℕ)
    → last_boundary id epoch page_size (xs ++ roll_back_at ys i)
      ≡ last_boundary id epoch page_size (xs ++ ys)
unfolding last_boundary roll_back_at record_boundary
last_boundary-rolled_behind id epoch page_size [] ys i =
    last_boundary-rolled id epoch page_size ys i
last_boundary-rolled_behind id epoch page_size (x ∷ []) [] i = refl
last_boundary-rolled_behind id epoch page_size (x ∷ []) (y ∷ ys) zero =
    last_boundary-rolled id epoch page_size (y ∷ ys) zero
last_boundary-rolled_behind id epoch page_size (x ∷ []) (y ∷ ys) (suc i) =
    last_boundary-rolled id epoch page_size (y ∷ ys) (suc i)
last_boundary-rolled_behind id epoch page_size (x ∷ z ∷ xs) ys i =
    last_boundary-rolled_behind id epoch page_size (z ∷ xs) ys i

module _ {H : Type 0} (sha256 : List ℕ → List ℕ) (c : BitcoinConsensus) (block : BlockHeader H)
    (page_size : ℕ) where
  abbrev rolled : JournalRecord H → JournalRecord H
  rolled r = record r { status = rolled_back }

  abbrev pub with_status : File → JournalRecord H → File
  with_status file r = write_all_at file (r.offset + 10) (to_byte rolled_back ∷ [])

  pub len-with_status :
      (file : File) (r : JournalRecord H)
      → Held sha256 c block page_size file r
      → (with_status file r).len ≡ file.len
  len-with_status file r h =
      len-write_inside file (r.offset + 10) (to_byte rolled_back ∷ [])
        (omega (arith, h.describes.room, h.on_disk.inside))

  pub with_status-SameOn :
      (file : File) (r : JournalRecord H) (lo hi : ℕ)
      → hi ≤ file.len
      → (hi ≤ r.offset + 10) ⊎ (r.offset + 11 ≤ lo)
      → SameOn file.byte_at (with_status file r).byte_at lo hi
  with_status-SameOn file r lo hi fits apart =
      write-SameOn file (r.offset + 10) (to_byte rolled_back ∷ []) lo hi fits
        (λ i p q from. elim apart [ inl below ↦ absurd (omega arith) | inr above ↦ omega arith ])

  rolled-Held :
      (file : File) (r : JournalRecord H)
      → Held sha256 c block page_size file r
      → Held sha256 c block page_size (with_status file r) (rolled r)
  rolled-Held file r h =
      let d = h.on_disk in
      let room = h.describes.room in
      let again : (off n : ℕ)
          → r.offset ≤ off
          → off + n ≤ r.offset + r.span
          → (off + n ≤ r.offset + 10) ⊎ (r.offset + 11 ≤ off)
          → read_bytes (with_status file r).byte_at off n ≡ read_bytes file.byte_at off n =
        λ off n from to apart.
          read-SameOn _ _ off (off + n) off n
            (with_status-SameOn file r off (off + n) (omega (arith, d.inside)) apart) (omega arith)
            (omega arith) in
      record {
        format = h.format;
        payload = h.payload;
        describes = record {
          spelled = h.describes.spelled;
          short = h.describes.short;
          aligned = h.describes.aligned;
          room = room;
          end_u64 = h.describes.end_u64;
          sealed = h.describes.sealed;
        };
        on_disk = record {
          inside = omega (arith, d.inside, len-with_status file r h);
          magic_on = again _ _ (omega arith) (omega (arith, room)) (inl (omega arith)) ∙ d.magic_on;
          format_on =
              ap from_le_bytes (again _ _ (omega arith) (omega (arith, room)) (inl (omega arith)))
              ∙ d.format_on;
          status_on = bytes-write_self file (r.offset + 10) (to_byte rolled_back ∷ []);
          span_on =
              ap from_le_bytes (again _ _ (omega arith) (omega (arith, room)) (inr (omega arith)))
              ∙ d.span_on;
          len_on =
              ap from_le_bytes (again _ _ (omega arith) (omega (arith, room)) (inr (omega arith)))
              ∙ d.len_on;
          checksum_on =
              again _ _ (omega arith) (omega (arith, room)) (inr (omega arith)) ∙ d.checksum_on;
          payload_on =
              again _ _ (omega arith) (omega (arith, room)) (inr (omega arith)) ∙ d.payload_on;
          trailer_on =
              again _ _ (omega arith) (omega (arith, room)) (inr (omega arith)) ∙ d.trailer_on;
        };
      }

  pub get_elem?-IsIn :
      (rs : List (JournalRecord H)) (i : ℕ) (r : JournalRecord H)
      → get_elem? rs i ≡ some r
      → IsIn r rs
  get_elem?-IsIn [] i r h = cc
  get_elem?-IsIn (x ∷ rs) zero r h = inl (cc h)
  get_elem?-IsIn (x ∷ rs) (suc i) r h = inr (get_elem?-IsIn rs i r h)

  -- The chain with the status of one record changed, on disk and in memory.
  pub Chain-rolled :
      (file : File) (start end : ℕ) (rs : List (JournalRecord H)) (i : ℕ) (r : JournalRecord H)
      → Chain sha256 c block page_size file start rs end
      → start % page_size ≡ 0
      → get_elem? rs i ≡ some r
      → end ≤ file.len
      → Chain sha256 c block page_size (with_status file r) start (roll_back_at rs i) end
  unfolding roll_back_at
  Chain-rolled file start end [] i r h page found fits = cc
  Chain-rolled file start end (x ∷ rs) zero r h page found fits =
      let same : x ≡ r = cc found in
      let last = Chain-le sha256 c block page_size file (start + x.span) end rs h.1 in
      let held =
        subst (λ (y : JournalRecord H). Held sha256 c block page_size file y) same h.0.held in
      let at : r.offset ≡ start = ap (λ (y : JournalRecord H). y.offset) (sym same) ∙ h.0.at in
      let size : x.span ≡ r.span = ap (λ (y : JournalRecord H). y.span) same in
      subst
        (λ (y : JournalRecord H).
          Chain sha256 c block page_size (with_status file r) start (rolled y ∷ rs) end)
        (sym same)
        (
          record {
            at = at;
            held = rolled-Held file r held;
            pages = ap (λ (n : ℕ). n % page_size) (sym size) ∙ h.0.pages;
            some_page = omega (arith, size, h.0.some_page);
          },
          subst (λ (n : ℕ). Chain sha256 c block page_size (with_status file r) (start + n) rs end)
              size
              (Chain-frame sha256 c block page_size file (with_status file r) (start + x.span) end
                rs h.1
                (with_status-SameOn file r (start + x.span) end fits
                  (inr (omega (arith, at, size, held.describes.room))))
                (omega (arith, len-with_status file r held, fits))),
        )
  Chain-rolled file start end (x ∷ rs) (suc i) r h page found fits =
      let page' = aligned-add start x.span page_size page h.0.pages in
      let (from, to, pos, at, held) =
        Chain-IsIn sha256 c block page_size file (start + x.span) end rs r h.1 page'
          (get_elem?-IsIn rs i r found) in
      (
        record {
          at = h.0.at;
          held =
              Held-frame sha256 c block page_size file (with_status file r) x h.0.held
                (with_status-SameOn file r x.offset (x.offset + x.span)
                  (omega (arith, h.0.at, from, to, fits)) (inl (omega (arith, h.0.at, from))))
                (omega (arith, len-with_status file r held, h.0.at, from, to, fits));
          pages = h.0.pages;
          some_page = h.0.some_page;
        },
        Chain-rolled file (start + x.span) end rs i r h.1 page' found fits,
      )
