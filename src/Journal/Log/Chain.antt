-- ===== src/Journal/Log/Chain.antt =====
-- src/forest_journal.rs: records that lie one behind the other in a file, and the scan that finds
-- them.
use rpc_utreexo_bridge.Base.{
  ℕ, zero, suc, ◌+◌, ◌%◌, ◌≤◌, ◌<◌, ◌≡◌, refl, ap, ◌∙◌, sym, subst, false, List, [], ◌∷◌, ◌++◌,
  IsIn, inl, inr, arith, leb, le→leb, ltb, lt→ltb, ok,
}
use rpc_utreexo_bridge.File.{File, SameOn, SameOn-narrow}
use rpc_utreexo_bridge.Consensus.{BitcoinConsensus}
use rpc_utreexo_bridge.Journal.Record.Types.{BlockHeader, JournalRecord}
use rpc_utreexo_bridge.Journal.Record.Disk.{read_record, scan_records}
use rpc_utreexo_bridge.Journal.Record.Held.{Held, Held-frame, read_record-Held}
use rpc_utreexo_bridge.Journal.Record.Plan.{aligned-add}
use rpc_utreexo_bridge.Journal.Log.State.{records_through}

module _ {H : Type 0} (sha256 : List ℕ → List ℕ) (c : BitcoinConsensus) (block : BlockHeader H)
    (page_size : ℕ) where
  -- The file holds `r` at `start`, and it takes whole pages.
  pub record Link (file : File) (start : ℕ) (r : JournalRecord H) : Type 0 where
    pub at : r.offset ≡ start
    pub held : Held sha256 c block page_size file r
    pub pages : r.span % page_size ≡ 0
    pub some_page : 0 < r.span

  -- The records lie in the file from `start` to `end`, without a gap.
  abbrev pub Chain : File → ℕ → List (JournalRecord H) → ℕ → Type 0
  Chain file start [] end = start ≡ end
  Chain file start (r ∷ rs) end = Link file start r × Chain file (start + r.span) rs end

  pub Chain-le :
      (file : File) (start end : ℕ) (rs : List (JournalRecord H))
      → Chain file start rs end
      → start ≤ end
  Chain-le file start end [] h = omega (arith, h)
  Chain-le file start end (r ∷ rs) h = omega (arith, Chain-le file (start + r.span) end rs h.1)

  pub Chain-empty :
      (file : File) (start : ℕ) (rs : List (JournalRecord H)) → Chain file start rs start → rs ≡ []
  Chain-empty file start [] h = refl
  Chain-empty file start (r ∷ rs) h =
      absurd (omega (arith, Chain-le file (start + r.span) start rs h.1, h.0.some_page))

  pub Chain-append :
      (file : File) (start mid end : ℕ) (xs ys : List (JournalRecord H))
      → Chain file start xs mid
      → Chain file mid ys end
      → Chain file start (xs ++ ys) end
  Chain-append file start mid end [] ys h k = subst (λ (s : ℕ). Chain file s ys end) (sym h) k
  Chain-append file start mid end (r ∷ xs) ys h k =
      (h.0, Chain-append file (start + r.span) mid end xs ys h.1 k)

  pub Chain-split :
      (file : File) (start end : ℕ) (xs ys : List (JournalRecord H))
      → Chain file start (xs ++ ys) end
      → (mid : ℕ) × Chain file start xs mid × Chain file mid ys end
  Chain-split file start end [] ys h = (start, refl, h)
  Chain-split file start end (r ∷ xs) ys h =
      let (mid, front, back) = Chain-split file (start + r.span) end xs ys h.1 in
      (mid, (h.0, front), back)

  -- The end of one more record.
  pub Chain-snoc :
      (file : File) (start mid : ℕ) (xs : List (JournalRecord H)) (r : JournalRecord H)
      → Chain file start xs mid
      → Link file mid r
      → Chain file start (xs ++ (r ∷ [])) (mid + r.span)
  Chain-snoc file start mid xs r h l =
      Chain-append file start mid (mid + r.span) xs (r ∷ []) h (l, refl)

  pub Chain-aligned :
      (file : File) (start end : ℕ) (rs : List (JournalRecord H))
      → Chain file start rs end
      → start % page_size ≡ 0
      → end % page_size ≡ 0
  Chain-aligned file start end [] h a = ap (λ (x : ℕ). x % page_size) (sym h) ∙ a
  Chain-aligned file start end (r ∷ rs) h a =
      Chain-aligned file (start + r.span) end rs h.1
        (aligned-add start r.span page_size a h.0.pages)

  -- A record of a chain lies inside of it, at a page.
  pub Chain-IsIn :
      (file : File) (start end : ℕ) (rs : List (JournalRecord H)) (r : JournalRecord H)
      → Chain file start rs end
      → start % page_size ≡ 0
      → IsIn r rs
      → (start ≤ r.offset)
        × (r.offset + r.span ≤ end)
        × (0 < r.span)
        × (r.offset % page_size ≡ 0)
        × Held sha256 c block page_size file r
  Chain-IsIn file start end [] r h a m = elim m [ ]
  Chain-IsIn file start end (s ∷ rs) r h a (inl e) =
      subst
        (λ (x : JournalRecord H).
          (start ≤ x.offset)
          × (x.offset + x.span ≤ end)
          × (0 < x.span)
          × (x.offset % page_size ≡ 0)
          × Held sha256 c block page_size file x)
        (sym e)
        (
          omega (arith, h.0.at),
          omega (arith, h.0.at, Chain-le file (start + s.span) end rs h.1),
          h.0.some_page,
          ap (λ (x : ℕ). x % page_size) h.0.at ∙ a,
          h.0.held,
        )
  Chain-IsIn file start end (s ∷ rs) r h a (inr m) =
      let (from, to, pos, page, held) =
        Chain-IsIn file (start + s.span) end rs r h.1
          (aligned-add start s.span page_size a h.0.pages) m in
      (omega (arith, from), to, pos, page, held)

  -- A file that agrees on the range of a chain has it as well.
  pub Chain-frame :
      (file file' : File) (start end : ℕ) (rs : List (JournalRecord H))
      → Chain file start rs end
      → SameOn file.byte_at file'.byte_at start end
      → end ≤ file'.len
      → Chain file' start rs end
  Chain-frame file file' start end [] h same fits = h
  Chain-frame file file' start end (r ∷ rs) h same fits =
      let last = Chain-le file (start + r.span) end rs h.1 in
      (
        record {
          at = h.0.at;
          held =
              Held-frame sha256 c block page_size file file' r h.0.held
                (SameOn-narrow _ _ start end r.offset (r.offset + r.span) same
                  (omega (arith, h.0.at)) (omega (arith, h.0.at, last)))
                (omega (arith, h.0.at, last, fits));
          pages = h.0.pages;
          some_page = h.0.some_page;
        },
        Chain-frame file file' (start + r.span) end rs h.1
            (SameOn-narrow _ _ start end (start + r.span) end same (omega arith) (omega arith))
            fits,
      )

  -- The records of a chain in a file, its start and end, and as much fuel as there are bytes between them: the scan returns
  -- exactly these records.
  pub scan_records-Chain :
      (fuel : ℕ) (file : File) (start end : ℕ) (rs : List (JournalRecord H))
      → Chain file start rs end
      → end ≤ start + fuel
      → scan_records sha256 c block fuel file page_size start end ≡ ok rs
  unfolding scan_records
  scan_records-Chain zero file start end [] h enough = rw (le→leb end start (omega (arith, h))) refl
  scan_records-Chain zero file start end (r ∷ rs) h enough =
      absurd (omega (arith, Chain-le file (start + r.span) end rs h.1, h.0.some_page))
  scan_records-Chain (suc fuel) file start end [] h enough =
      let stop : ltb start end ≡ false = ground (arith, h) in rw (scan_records, stop) refl
  scan_records-Chain (suc fuel) file start end (r ∷ rs) h enough =
      let last = Chain-le file (start + r.span) end rs h.1 in
      let more = lt→ltb start end (omega (arith, last, h.0.some_page)) in
      let read =
        subst (λ (o : ℕ). read_record sha256 c block file page_size o end ≡ ok r) h.0.at
          (read_record-Held sha256 c block page_size file r h.0.held end
            (omega (arith, h.0.at, last))) in
      let rest =
        scan_records-Chain fuel file (start + r.span) end rs h.1 (omega (arith, h.0.some_page)) in
      rw (scan_records, more, read, rest) refl

  -- Cutting the list of records at the end of a part of the chain.
  pub records_through-Chain :
      (file : File) (start mid end : ℕ) (xs ys : List (JournalRecord H))
      → Chain file start xs mid
      → Chain file mid ys end
      → records_through mid (xs ++ ys) ≡ xs
  unfolding records_through
  records_through-Chain file start mid end [] [] h k = refl
  records_through-Chain file start mid end [] (y ∷ ys) h k =
      let out : leb (y.offset + y.span) mid ≡ false = ground (arith, k.0.at, k.0.some_page) in
      rw out refl
  records_through-Chain file start mid end (x ∷ xs) ys h k =
      let inside =
        le→leb (x.offset + x.span) mid
          (omega (arith, h.0.at, Chain-le file (start + x.span) mid xs h.1)) in
      rw (inside, records_through-Chain file (start + x.span) mid end xs ys h.1 k) refl
