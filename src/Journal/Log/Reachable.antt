-- ===== src/Journal/Log/Reachable.antt =====
-- src/forest_journal.rs: the states that the journal reaches from its initialization, by any
-- sequence of operations and stops.
use rpc_utreexo_bridge.Base.{
  ℕ, ◌+◌, ◌^◌, ◌≤◌, ◌<◌, ◌≡◌, subst, sym, inl, inr, true, false, Bool, List, [], ◌∷◌, length, IsIn,
  All, ok, if_true, ◌⊎◌,
}
use rpc_utreexo_bridge.File.{File, Outcome, SameOn, KeepsBelow}
use rpc_utreexo_bridge.Consensus.{BitcoinConsensus, Laws, IsLawful}
use rpc_utreexo_bridge.Journal.Entry.Types.{JournalEntry}
use rpc_utreexo_bridge.Journal.Marker.Defs.{JournalBoundary}
use rpc_utreexo_bridge.Journal.Record.Types.{BlockHeader, JournalReplayPayload}
use rpc_utreexo_bridge.Journal.Record.Disk.{WriteOutcome}
use rpc_utreexo_bridge.Journal.Record.Stored.{Spares}
use rpc_utreexo_bridge.Journal.Log.State.{ForestJournal, JournalPrune}
use rpc_utreexo_bridge.Journal.Log.Operations.{
  Reclaim, append_block, publish, discard_unpublished, mark_rolled_back, prepare_prune, finish,
}
use rpc_utreexo_bridge.Journal.Log.Open.{open_journal}
use rpc_utreexo_bridge.Journal.Log.Sound.{System, IsSound}
use rpc_utreexo_bridge.Journal.Log.AppendBlock.{after_append, IsTypedBlock, append_block-IsSound}
use rpc_utreexo_bridge.Journal.Log.Publish.{publish-Stays}
use rpc_utreexo_bridge.Journal.Log.Discard.{discard_unpublished-Stays}
use rpc_utreexo_bridge.Journal.Log.Rollback.{mark_rolled_back-Stays}
use rpc_utreexo_bridge.Journal.Log.Prune.{after_prepare, prepare_prune-IsSound}
use rpc_utreexo_bridge.Journal.Log.Finish.{KeepsOutside, finish-Stays}
use rpc_utreexo_bridge.Journal.Log.Reopen.{open_journal-Reopens}

module _ {H : Type 0} (sha256 : List ℕ → List ℕ)
    (digest_32 : (bs : List ℕ) → length (sha256 bs) ≡ 32) (c : BitcoinConsensus) (laws : Laws c)
    (block : BlockHeader H) (V : H → Type 0) (header_lawful : IsLawful V block.codec) where
  -- One operation on a journal that is not poisoned, whatever its calls of the system do, or a stop
  -- that leaves the published part of the file, and a restart.
  pub data Step : System H → System H → Type 0 where
    appending :
        (s : System H) (io : WriteOutcome) (cut : Outcome) (entry : JournalEntry)
        (replay : JournalReplayPayload H)
        → s.journal.poisoned ≡ false
        → Spares s.journal.file s.journal.appended_end io
        → IsTypedBlock sha256 digest_32 c laws block V header_lawful entry replay
        → Step s (after_append s (append_block sha256 c block io cut s.journal entry replay))
    publication :
        (s : System H) (synced : Bool) (write : Outcome) (flushed : Bool) (b : JournalBoundary)
        → s.journal.poisoned ≡ false
        → IsIn b s.boundaries
        → Step s (record s { journal = (publish sha256 synced write flushed s.journal b).0 })
    discarding :
        (s : System H) (cut : Outcome)
        → s.journal.poisoned ≡ false
        → KeepsBelow cut s.journal.file s.journal.appended_end
        → s.journal.epoch + 1 < 2 ^ 64
        → Step s (record s { journal = (discard_unpublished cut s.journal).0 })
    rollback :
        (s : System H) (write : Outcome) (synced : Bool) (index : ℕ)
        → s.journal.poisoned ≡ false
        → Step s (record s { journal = (mark_rolled_back write synced s.journal index).0 })
    preparation :
        (s : System H) (cloned : Bool) (keep : ℕ)
        → Step s (after_prepare s (prepare_prune cloned s.journal keep))
    pruning :
        (s : System H) (first second : Outcome × Bool) (hole : Reclaim) (p : JournalPrune)
        → s.journal.poisoned ≡ false
        → IsIn p s.prunes
        → KeepsOutside hole s.journal.file s.journal.marker.replay_start p.replay_start
        → Step s (record s { journal = (finish sha256 first second hole s.journal p).0 })
    restart :
        (s : System H) (cut : Outcome) (clean : Bool) (file : File) (j' : ForestJournal H)
        → s.journal.poisoned ≡ false
        → SameOn s.journal.file.byte_at file.byte_at 0 s.journal.marker.boundary.end
        → s.journal.marker.boundary.end ≤ file.len
        → open_journal sha256 c block cut clean file s.journal.marker_file ≡ ok j'
        → Step s (record { journal = j'; boundaries = []; prunes = [] })

  pub data Reachable (start : System H) : System H → Type 0 where
    here : Reachable start start
    there : {s t : System H} → Reachable start s → Step s t → Reachable start t

  -- What holds of a handed out value.
  All-IsIn : {A : Type 0} (P : A → Type 0) (x : A) (xs : List A) → All P xs → IsIn x xs → P x
  All-IsIn P x [] all h = elim h [ ]
  All-IsIn P x (y ∷ xs) all (inl e) = subst P (sym e) all.0
  All-IsIn P x (y ∷ xs) all (inr h) = All-IsIn P x xs all.1 h

  abbrev pub IsFine : System H → Type 0
  IsFine s = (s.journal.poisoned ≡ true) ⊎ IsSound sha256 digest_32 c block s

  pub live-IsSound :
      (s : System H) → IsFine s → s.journal.poisoned ≡ false → IsSound sha256 digest_32 c block s
  live-IsSound s (inl dead) live = cc (dead, live)
  live-IsSound s (inr h) live = h

  prepare-IsFine :
      (s : System H) (cloned : Bool) (keep : ℕ)
      → IsFine s
      → IsFine (after_prepare s (prepare_prune cloned s.journal keep))
  unfolding prepare_prune
  prepare-IsFine s cloned keep (inl dead) =
      subst (λ q. IsFine (after_prepare s q)) (sym (if_true _ _ dead)) (inl dead)
  prepare-IsFine s cloned keep (inr h) =
      inr (prepare_prune-IsSound sha256 digest_32 c block s h cloned keep)

  Step-IsFine : {s t : System H} → IsFine s → Step s t → IsFine t
  Step-IsFine f (appending s io cut entry replay live spares t) =
      append_block-IsSound sha256 digest_32 c laws block V header_lawful s io cut entry replay
        (live-IsSound s f live) live spares t
  Step-IsFine f (publication s synced write flushed b live given) =
      let h = live-IsSound s f live in
      publish-Stays sha256 digest_32 c block s h synced write flushed b live
        (All-IsIn _ b s.boundaries h.handed given)
  Step-IsFine f (discarding s cut live keeps young) =
      discard_unpublished-Stays sha256 digest_32 c block s (live-IsSound s f live) cut live keeps
        young
  Step-IsFine f (rollback s write synced index live) =
      mark_rolled_back-Stays sha256 digest_32 c block s (live-IsSound s f live) write synced index
        live
  Step-IsFine f (preparation s cloned keep) = prepare-IsFine s cloned keep f
  Step-IsFine f (pruning s first second hole p live given keeps) =
      let h = live-IsSound s f live in
      finish-Stays sha256 digest_32 c block s h first second hole p live
        (All-IsIn _ p s.prunes h.pending given) keeps
  Step-IsFine f (restart s cut clean file j' live same fits opens) =
      inr
        ((open_journal-Reopens sha256 digest_32 c block s (live-IsSound s f live) cut clean file
            same fits).1
          j' opens).is_sound

  pub Reachable-IsFine :
      (start t : System H) → IsSound sha256 digest_32 c block start → Reachable start t → IsFine t
  Reachable-IsFine start t h here = inr h
  Reachable-IsFine start t h (there reached step) =
      Step-IsFine (Reachable-IsFine start _ h reached) step
