-- ===== src/Journal/Log/Sound.antt =====
-- src/forest_journal.rs: what ties the state of the journal to its two files, as long as it is not
-- poisoned.
use rpc_utreexo_bridge.Base.{
  ℕ, ◌≤◌, ◌<◌, ◌≡◌, refl, ◌∙◌, ◌⊎◌, inl, inr, true, List, [], ◌∷◌, ◌++◌, IsIn, All, arith, ok,
  length,
}
use rpc_utreexo_bridge.File.{File, SameOn, SameOn-narrow}
use rpc_utreexo_bridge.Consensus.{BitcoinConsensus}
use rpc_utreexo_bridge.Journal.Marker.Defs.{
  JournalBoundary, PublicationMarker, read_publication_marker,
}
use rpc_utreexo_bridge.Journal.Marker.Slot.{IsTypedMarker, IsConsistent, stored}
use rpc_utreexo_bridge.Journal.Marker.Recovery.{Holds}
use rpc_utreexo_bridge.Journal.Record.Types.{
  BlockHeader, JournalRecord, record_boundary, last_boundary, empty_boundary,
}
use rpc_utreexo_bridge.Journal.Log.State.{ForestJournal, JournalPrune}
use rpc_utreexo_bridge.Journal.Log.Chain.{Chain, Chain-frame, Chain-le}
use rpc_utreexo_bridge.Journal.Log.Open.{read_superblock, read_superblock-SameOn}

module _ {H : Type 0} (journal_id : List ℕ) (epoch page_size : ℕ) where
  -- The last of some records is the last of the back part.
  pub last_boundary-append :
      (xs : List (JournalRecord H)) (r : JournalRecord H) (ys : List (JournalRecord H))
      → last_boundary journal_id epoch page_size (xs ++ (r ∷ ys))
        ≡ last_boundary journal_id epoch page_size (r ∷ ys)
  unfolding last_boundary
  last_boundary-append [] r ys = refl
  last_boundary-append (x ∷ []) r ys = refl
  last_boundary-append (x ∷ y ∷ xs) r ys = last_boundary-append (y ∷ xs) r ys

  -- It is the empty boundary or that of one of the records.
  pub last_boundary-IsIn :
      (rs : List (JournalRecord H))
      → (last_boundary journal_id epoch page_size rs ≡ empty_boundary journal_id epoch page_size)
        ⊎ ((r : JournalRecord H) × IsIn r rs
            × (last_boundary journal_id epoch page_size rs ≡ record_boundary r journal_id epoch))
  unfolding last_boundary
  last_boundary-IsIn [] = inl refl
  last_boundary-IsIn (r ∷ []) = inr (r, inl refl, refl)
  last_boundary-IsIn (r ∷ s ∷ rs) = elim (last_boundary-IsIn (s ∷ rs)) [
    | inl e ↦ inl e
    | inr (t, m, e) ↦ inr (t, inr m, e)
  ]

-- The journal with the boundaries that it handed out and the prunings that were prepared.
pub record System (H : Type 0) : Type 0 where
  pub journal : ForestJournal H
  pub boundaries : List JournalBoundary
  pub prunes : List JournalPrune

module _ {H : Type 0} (sha256 : List ℕ → List ℕ)
    (digest_32 : (bs : List ℕ) → length (sha256 bs) ≡ 32) (c : BitcoinConsensus)
    (block : BlockHeader H) where
  -- On disk lie, from `floor` on: records that a pruning has let go, up to `mid`, the published
  -- records in memory, up to `end`, and those that are not published, up to `last`.
  pub record Laid (file : File) (page_size : ℕ) (journal_id : List ℕ) (floor mid end last : ℕ)
      (gone kept tail : List (JournalRecord H)) : Type 0 where
    pub gone_chain : Chain sha256 c block page_size file floor gone mid
    pub kept_chain : Chain sha256 c block page_size file mid kept end
    pub tail_chain : Chain sha256 c block page_size file end tail last
    pub file_end : last ≤ file.len
    pub superblock : read_superblock sha256 file ≡ ok (page_size, journal_id)
    pub page_large : 96 ≤ page_size
    pub first_page : page_size ≤ floor

  -- The marker file gives back the marker.
  pub record Marked (marker_file : File) (page_size : ℕ) (journal_id : List ℕ)
      (marker : PublicationMarker) : Type 0 where
    pub same_id : marker.boundary.journal_id ≡ journal_id
    pub marker_typed : IsTypedMarker marker
    pub marker_consistent : IsConsistent page_size marker
    pub marker_held : Holds sha256 digest_32 marker_file marker
    pub marker_read :
        read_publication_marker sha256 marker_file journal_id page_size ≡ ok (stored marker)

  pub record Sound (j : ForestJournal H) (gone kept tail : List (JournalRecord H)) (mid : ℕ)
      : Type 0 where
    pub in_memory : j.records ≡ kept ++ tail
    pub laid :
        Laid j.file j.page_size j.journal_id j.marker.replay_start mid j.marker.boundary.end
          j.appended_end gone kept tail
    pub marked : Marked j.marker_file j.page_size j.journal_id j.marker
    pub published : j.published_end ≡ j.marker.boundary.end
    pub last_is :
        last_boundary j.journal_id 0 j.page_size (gone ++ kept) ≡ (stored j.marker).boundary

  -- A boundary of this epoch behind the published end is that of a record in memory.
  abbrev pub IsCurrent : ForestJournal H → List (JournalRecord H) → JournalBoundary → Type 0
  IsCurrent j tail b =
      (b.epoch ≤ j.epoch)
      × (b.epoch ≡ j.epoch
          → j.marker.boundary.end < b.end
          → (r : JournalRecord H) × IsIn r tail × (b ≡ record_boundary r j.journal_id j.epoch))

  -- A prepared pruning was finished, or starts at a record that is still on disk.
  abbrev pub IsPrunable : ForestJournal H → List (JournalRecord H) → ℕ → JournalPrune → Type 0
  IsPrunable j gone mid p =
      (p.replay_start ≤ j.marker.replay_start)
      ⊎ ((p.replay_start ≡ mid)
          ⊎ ((r : JournalRecord H) × IsIn r gone × (r.offset ≡ p.replay_start)))

  pub record IsSound (s : System H) : Type 0 where
    pub gone : List (JournalRecord H)
    pub kept : List (JournalRecord H)
    pub tail : List (JournalRecord H)
    pub mid : ℕ
    pub sound : Sound s.journal gone kept tail mid
    pub handed : All (IsCurrent s.journal tail) s.boundaries
    pub pending : All (IsPrunable s.journal gone mid) s.prunes

  -- After a step on the journal: it is poisoned, or the system is sound.
  abbrev pub Stays {ℓ} : {A : Type ℓ} → System H → ForestJournal H × A → Type 0
  Stays s q = (q.0.poisoned ≡ true) ⊎ IsSound (record s { journal = q.0 })

  module _ {file : File} {page_size : ℕ} {journal_id : List ℕ} {floor mid end last : ℕ}
      {gone kept tail : List (JournalRecord H)}
      (l : Laid file page_size journal_id floor mid end last gone kept tail) where
    -- The parts in their order.
    pub ordered : (page_size ≤ floor) × (floor ≤ mid) × (mid ≤ end) × (end ≤ last)
    ordered = (
      l.first_page,
      Chain-le sha256 c block page_size file floor mid gone l.gone_chain,
      Chain-le sha256 c block page_size file mid end kept l.kept_chain,
      Chain-le sha256 c block page_size file end last tail l.tail_chain,
    )

    -- Another file may take the place of the journal's, when it agrees on the superblock and behind
    -- the floor.
    pub Laid-frame :
        (file' : File)
        → SameOn file.byte_at file'.byte_at 0 96
        → SameOn file.byte_at file'.byte_at floor last
        → last ≤ file'.len
        → Laid file' page_size journal_id floor mid end last gone kept tail
    Laid-frame file' head same fits =
        let (a, b, d, e) = ordered in
        let part : (lo hi : ℕ) → floor ≤ lo → hi ≤ last → SameOn file.byte_at file'.byte_at lo hi =
          λ lo hi h k. SameOn-narrow _ _ floor last lo hi same h k in
        record {
          gone_chain =
              Chain-frame sha256 c block page_size file file' floor mid gone l.gone_chain
                (part floor mid (omega arith) (omega (arith, d, e))) (omega (arith, d, e, fits));
          kept_chain =
              Chain-frame sha256 c block page_size file file' mid end kept l.kept_chain
                (part mid end b e) (omega (arith, e, fits));
          tail_chain =
              Chain-frame sha256 c block page_size file file' end last tail l.tail_chain
                (part end last (omega (arith, b, d)) (omega arith)) fits;
          file_end = fits;
          superblock =
              read_superblock-SameOn sha256 file file' head
                (omega (arith, a, b, d, e, l.page_large, l.file_end))
                (omega (arith, a, b, d, e, l.page_large, fits))
              ∙ l.superblock;
          page_large = l.page_large;
          first_page = l.first_page;
        }

    -- It is enough that they agree below the last end.
    pub Laid-below :
        (file' : File)
        → SameOn file.byte_at file'.byte_at 0 last
        → last ≤ file'.len
        → Laid file' page_size journal_id floor mid end last gone kept tail
    Laid-below file' same fits =
        let (a, b, d, e) = ordered in
        Laid-frame file'
          (SameOn-narrow _ _ 0 last 0 96 same (omega arith)
            (omega (arith, a, b, d, e, l.page_large)))
          (SameOn-narrow _ _ 0 last floor last same (omega arith) (omega arith)) fits

    -- Without the records that are not published.
    pub Laid-published : Laid file page_size journal_id floor mid end end gone kept []
    Laid-published = record {
      gone_chain = l.gone_chain;
      kept_chain = l.kept_chain;
      tail_chain = refl;
      file_end = omega (arith, ordered, l.file_end);
      superblock = l.superblock;
      page_large = l.page_large;
      first_page = l.first_page;
    }
