-- ===== src/Journal/Log/Recovered.antt =====
-- src/forest_journal.rs: what opening recovers in every state that the journal reaches.
use rpc_utreexo_bridge.Base.{
  ℕ, ◌+◌, ◌≤◌, ◌≡◌, true, List, [], ◌∷◌, length, All, ok, err, Result, ◌++◌,
}
use rpc_utreexo_bridge.File.{File}
use rpc_utreexo_bridge.Consensus.{BitcoinConsensus, Laws, IsLawful}
use rpc_utreexo_bridge.Journal.Record.Types.{BlockHeader, JournalRecord}
use rpc_utreexo_bridge.Journal.Log.State.{LogError, ForestJournal, JournalPrune, published_records}
use rpc_utreexo_bridge.Journal.Log.Operations.{finish}
use rpc_utreexo_bridge.Journal.Log.Open.{is_power_of_two}
use rpc_utreexo_bridge.Journal.Log.Sound.{System}
use rpc_utreexo_bridge.Journal.Log.Fresh.{fresh}
use rpc_utreexo_bridge.Journal.Log.Chain.{Chain}
use rpc_utreexo_bridge.Journal.Log.Reachable.{
  Step, appending, publication, discarding, rollback, preparation, pruning, restart, Reachable,
  here, there,
}

module _ {H : Type 0} (sha256 : List ℕ → List ℕ)
    (digest_32 : (bs : List ℕ) → length (sha256 bs) ≡ 32) (c : BitcoinConsensus) (laws : Laws c)
    (block : BlockHeader H) (V : H → Type 0) (header_lawful : IsLawful V block.codec) where
  -- The start of a pruning whose `finish` succeeded.
  abbrev pub finished_at : JournalPrune → ForestJournal H × Result LogError ℕ → List ℕ
  finished_at p (j, ok count) = p.replay_start ∷ []
  finished_at p (j, err e) = []

  abbrev pub finished_by :
      {s t : System H} → Step sha256 digest_32 c laws block V header_lawful s t → List ℕ
  finished_by (appending s io cut entry replay live spares t) = []
  finished_by (publication s synced write flushed b live given) = []
  finished_by (discarding s cut live keeps young) = []
  finished_by (rollback s write synced index live) = []
  finished_by (preparation s cloned keep) = []
  finished_by (pruning s first second hole p live given keeps) =
      finished_at p (finish sha256 first second hole s.journal p)
  finished_by (restart s cut clean file j' live same fits opens) = []

  -- The starts of the prunings that were finished on the way.
  abbrev pub finished :
      {s t : System H} → Reachable sha256 digest_32 c laws block V header_lawful s t → List ℕ
  finished here = []
  finished (there reached step) = finished_by step ++ finished reached

  abbrev IsBelow : List ℕ → System H → Type 0
  IsBelow starts s = All (λ n. n ≤ s.journal.marker.replay_start) starts

  -- A record that lies in front of the published ones, behind the prunings that were finished.
  abbrev pub IsUnpruned : ForestJournal H → List ℕ → JournalRecord H → Type 0
  IsUnpruned j starts r =
      All (λ n. n ≤ r.offset) starts
      × All (λ (q : JournalRecord H). r.offset + r.span ≤ q.offset) (published_records j)

  module _ (page_size : ℕ) (journal_id : List ℕ) (small : 4096 ≤ page_size)
      (large : page_size ≤ 65536) (power : is_power_of_two page_size ≡ true)
      (id_32 : length journal_id ≡ 32) where
    abbrev pub start : System H
    start = fresh sha256 digest_32 c block page_size journal_id small large power id_32
