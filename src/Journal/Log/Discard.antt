-- ===== src/Journal/Log/Discard.antt =====
-- src/forest_journal.rs: `discard_unpublished` keeps the system of the journal sound.
use rpc_utreexo_bridge.Base.{
  length, ℕ, ◌+◌, ◌^◌, ◌≤◌, ◌<◌, ◌≡◌, ap, ◌∙◌, sym, subst, inr, false, List, [], append-nil,
  All-map, arith, if_false,
}
use rpc_utreexo_bridge.File.{Outcome, done, failed, KeepsBelow, set_len, set_len-SameOn}
use rpc_utreexo_bridge.Consensus.{BitcoinConsensus}
use rpc_utreexo_bridge.Journal.Record.Types.{BlockHeader}
use rpc_utreexo_bridge.Journal.Log.State.{ForestJournal, records_through}
use rpc_utreexo_bridge.Journal.Log.Operations.{discard, discard_unpublished}
use rpc_utreexo_bridge.Journal.Log.Chain.{records_through-Chain}
use rpc_utreexo_bridge.Journal.Log.Sound.{
  System, IsSound, Stays, ordered, Laid-published, Laid-below,
}
use rpc_utreexo_bridge.Journal.Log.Append.{file-IsSound}

module _ {H : Type 0} (sha256 : List ℕ → List ℕ)
    (digest_32 : (bs : List ℕ) → length (sha256 bs) ≡ 32) (c : BitcoinConsensus)
    (block : BlockHeader H) (s : System H) (h : IsSound sha256 digest_32 c block s) where
  abbrev j : ForestJournal H
  j = s.journal

  pub published-records : records_through j.marker.boundary.end j.records ≡ h.kept
  published-records =
      ap (records_through j.marker.boundary.end) h.sound.in_memory
      ∙ records_through-Chain sha256 c block j.page_size j.file h.mid j.marker.boundary.end
          j.appended_end h.kept h.tail h.sound.laid.kept_chain h.sound.laid.tail_chain

  discard-Stays :
      (cut : Outcome)
      → KeepsBelow cut j.file j.appended_end
      → j.epoch + 1 < 2 ^ 64
      → Stays sha256 digest_32 c block s (discard cut j)
  discard-Stays (failed left) keeps young =
      inr (file-IsSound sha256 digest_32 c block s h left keeps.0 keeps.1)
  discard-Stays done keeps young =
      let (a, b, d, e) = ordered sha256 digest_32 c block h.sound.laid in
      let fits : j.marker.boundary.end ≤ j.file.len = omega (arith, e, h.sound.laid.file_end) in
      inr (record {
        gone = h.gone;
        kept = h.kept;
        tail = [];
        mid = h.mid;
        sound = record {
          in_memory = published-records ∙ sym (append-nil h.kept);
          laid =
              Laid-below sha256 digest_32 c block
                (Laid-published sha256 digest_32 c block h.sound.laid)
                (set_len j.file j.marker.boundary.end)
                (set_len-SameOn j.file j.marker.boundary.end 0 j.marker.boundary.end fits)
                (unfold set_len in omega arith);
          marked = h.sound.marked;
          published = h.sound.published;
          last_is = h.sound.last_is;
        };
        handed =
            All-map
              (λ b' cur.
                (omega (arith, cur.0, young), λ now _. absurd (omega (arith, cur.0, now, young))))
              s.boundaries h.handed;
        pending = h.pending;
      })

  -- A sound system whose journal is not poisoned, fewer than 2^64 discards, and a cut that leaves the records when it fails:
  -- after `discard_unpublished` the system is sound.
  pub discard_unpublished-Stays :
      (cut : Outcome)
      → j.poisoned ≡ false
      → KeepsBelow cut j.file j.appended_end
      → j.epoch + 1 < 2 ^ 64
      → Stays sha256 digest_32 c block s (discard_unpublished cut j)
  unfolding discard_unpublished
  discard_unpublished-Stays cut live keeps young =
      subst (Stays sha256 digest_32 c block s) (sym (if_false _ _ live))
        (discard-Stays cut keeps young)
