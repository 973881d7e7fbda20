-- ===== src/Journal/Log/Recover.antt =====
-- src/forest_journal.rs: what `ForestJournal::open` finds after a stop at any moment.
use rpc_utreexo_bridge.Base.{ℕ, ◌≤◌, ◌≡◌, refl, ap, ◌∙◌, List, [], ◌++◌, length, arith, le→leb, ok}
use rpc_utreexo_bridge.File.{File, SameOn}
use rpc_utreexo_bridge.Consensus.{BitcoinConsensus}
use rpc_utreexo_bridge.Journal.Marker.Slot.{stored}
use rpc_utreexo_bridge.Journal.Marker.Recovery.{boundary_eq_refl}
use rpc_utreexo_bridge.Journal.Record.Types.{BlockHeader, JournalRecord, last_boundary}
use rpc_utreexo_bridge.Journal.Record.Disk.{scan_published}
use rpc_utreexo_bridge.Journal.Log.State.{ForestJournal}
use rpc_utreexo_bridge.Journal.Log.Chain.{Chain-append, scan_records-Chain}
use rpc_utreexo_bridge.Journal.Log.Open.{recover}
use rpc_utreexo_bridge.Journal.Log.Sound.{Laid, Sound, Laid-published, Laid-below}

module _ {H : Type 0} (sha256 : List ℕ → List ℕ)
    (digest_32 : (bs : List ℕ) → length (sha256 bs) ≡ 32) (c : BitcoinConsensus)
    (block : BlockHeader H) where
  module _ (j : ForestJournal H) (gone kept tail : List (JournalRecord H)) (mid : ℕ)
      (s : Sound sha256 digest_32 c block j gone kept tail mid) where
    scan_published-Laid :
        (file : File)
        → Laid sha256 digest_32 c block file j.page_size j.journal_id j.marker.replay_start mid
            j.marker.boundary.end j.marker.boundary.end gone kept []
        → scan_published sha256 c block file j.page_size (stored j.marker) ≡ ok (gone ++ kept)
    unfolding scan_published
    scan_published-Laid file l =
        rw
          (
            scan_records-Chain sha256 c block j.page_size j.marker.boundary.end file
                j.marker.replay_start j.marker.boundary.end (gone ++ kept)
                (Chain-append sha256 c block j.page_size file j.marker.replay_start mid
                  j.marker.boundary.end gone kept l.gone_chain l.kept_chain)
                (omega arith),
            ap (λ (id : List ℕ). last_boundary id 0 j.page_size (gone ++ kept)) s.marked.same_id
                ∙ s.last_is,
            boundary_eq_refl (stored j.marker).boundary,
          )
          refl

    -- A journal in a sound state, and any file that agrees with its file below the published end, which is how a stop leaves
    -- it while records are appended or cut: opening it finds the page size, the identity, the marker and
    -- exactly the published records.
    pub recover-Sound :
        (file : File)
        → SameOn j.file.byte_at file.byte_at 0 j.marker.boundary.end
        → j.marker.boundary.end ≤ file.len
        → recover sha256 c block file j.marker_file
          ≡ ok (j.page_size, j.journal_id, stored j.marker, gone ++ kept)
    unfolding recover
    recover-Sound file same fits =
        let l =
          Laid-below sha256 digest_32 c block (Laid-published sha256 digest_32 c block s.laid) file
            same fits in
        rw
          (
            l.superblock,
            s.marked.marker_read,
            le→leb j.marker.boundary.end file.len fits,
            scan_published-Laid file l,
          )
          refl
