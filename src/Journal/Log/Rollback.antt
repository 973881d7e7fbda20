-- ===== src/Journal/Log/Rollback.antt =====
-- src/forest_journal.rs: `mark_rolled_back` keeps the system of the journal sound, or poisons it.
use rpc_utreexo_bridge.Base.{
  ℕ, ◌≡◌, refl, ap, ◌∙◌, sym, subst, inl, inr, true, false, not, Bool, List, [], ◌++◌, append-nil,
  All, length, leb, ◌==◌, get_elem?, some, Bool-cases, Option-cases, arith, if_false, if_true,
}
use rpc_utreexo_bridge.File.{Outcome, done, failed}
use rpc_utreexo_bridge.Consensus.{BitcoinConsensus}
use rpc_utreexo_bridge.Journal.Record.Types.{BlockHeader, JournalRecord}
use rpc_utreexo_bridge.Journal.Log.State.{ForestJournal, published_records}
use rpc_utreexo_bridge.Journal.Log.Operations.{roll_back_at, set_status, mark_rolled_back}
use rpc_utreexo_bridge.Journal.Log.Chain.{
  Chain, Chain-frame, Chain-empty, Chain-IsIn, Chain-aligned,
}
use rpc_utreexo_bridge.Journal.Log.Open.{read_superblock-SameOn}
use rpc_utreexo_bridge.Journal.Log.Sound.{System, IsSound, IsCurrent, Stays, ordered}
use rpc_utreexo_bridge.Journal.Log.Rolled.{
  len-with_status, with_status-SameOn, get_elem?-IsIn, Chain-rolled, last_boundary-rolled_behind,
}

module _ {H : Type 0} (sha256 : List ℕ → List ℕ)
    (digest_32 : (bs : List ℕ) → length (sha256 bs) ≡ 32) (c : BitcoinConsensus)
    (block : BlockHeader H) (s : System H) (h : IsSound sha256 digest_32 c block s) where
  abbrev j : ForestJournal H
  j = s.journal

  module _ (settled : (j.appended_end == j.published_end) ≡ true) where
    no_tail : h.tail ≡ []
    no_tail =
        let same : j.marker.boundary.end ≡ j.appended_end =
          ground (arith, settled, h.sound.published) in
        Chain-empty sha256 c block j.page_size j.file j.marker.boundary.end h.tail (
          subst (λ (e : ℕ). Chain sha256 c block j.page_size j.file j.marker.boundary.end h.tail e)
            (sym same) h.sound.laid.tail_chain)

    all_kept : j.records ≡ h.kept
    all_kept = h.sound.in_memory ∙ ap (◌++◌ h.kept) no_tail ∙ append-nil h.kept

    set_status-Stays :
        (write : Outcome) (synced : Bool) (index : ℕ) (r : JournalRecord H)
        → get_elem? j.records index ≡ some r
        → Stays sha256 digest_32 c block s (set_status write synced j index r)
    set_status-Stays (failed left) synced index r found = inl refl
    set_status-Stays done false index r found = inl refl
    set_status-Stays done true index r found =
        let l = h.sound.laid in
        let (a, b, d, e) = ordered sha256 digest_32 c block l in
        let in_kept : get_elem? h.kept index ≡ some r =
          ap (λ (rs : List (JournalRecord H)). get_elem? rs index) (sym all_kept) ∙ found in
        let first =
          Chain-aligned sha256 c block j.page_size j.file _ _ h.gone l.gone_chain
            h.sound.marked.marker_consistent.replay_aligned in
        let (from, to, pos, page, held) =
          Chain-IsIn sha256 c block j.page_size j.file h.mid j.marker.boundary.end h.kept r
            l.kept_chain first (get_elem?-IsIn sha256 c block j.page_size h.kept index r in_kept) in
        let same_len = len-with_status sha256 c block j.page_size j.file r held in
        let elsewhere = with_status-SameOn sha256 c block j.page_size j.file r in
        inr (record {
          gone = h.gone;
          kept = roll_back_at h.kept index;
          tail = [];
          mid = h.mid;
          sound = record {
            in_memory =
                ap (λ (rs : List (JournalRecord H)). roll_back_at rs index) all_kept
                ∙ sym (append-nil (roll_back_at h.kept index));
            laid = record {
              gone_chain =
                  Chain-frame sha256 c block j.page_size j.file _ j.marker.replay_start h.mid h.gone
                    l.gone_chain
                    (elsewhere j.marker.replay_start h.mid (omega (arith, d, e, l.file_end))
                      (inl (omega (arith, from))))
                    (omega (arith, d, e, l.file_end, same_len));
              kept_chain =
                  Chain-rolled sha256 c block j.page_size j.file h.mid j.marker.boundary.end h.kept
                    index r l.kept_chain first in_kept (omega (arith, e, l.file_end));
              tail_chain = ground (arith, settled, h.sound.published);
              file_end = omega (arith, l.file_end, same_len);
              superblock =
                  read_superblock-SameOn sha256 j.file _
                    (elsewhere 0 96 (omega (arith, a, b, d, e, l.page_large, l.file_end))
                      (inl (omega (arith, a, b, from, l.page_large))))
                    (omega (arith, a, b, d, e, l.page_large, l.file_end))
                    (omega (arith, a, b, d, e, l.page_large, l.file_end, same_len))
                  ∙ l.superblock;
              page_large = l.page_large;
              first_page = l.first_page;
            };
            marked = h.sound.marked;
            published = h.sound.published;
            last_is =
                last_boundary-rolled_behind j.journal_id 0 j.page_size h.gone h.kept index
                ∙ h.sound.last_is;
          };
          handed =
              subst
                (λ (rs : List (JournalRecord H)).
                  All (IsCurrent sha256 digest_32 c block j rs) s.boundaries)
                no_tail h.handed;
          pending = h.pending;
        })

  -- A sound system whose journal is not poisoned: after `mark_rolled_back`, for every index and however its calls go, the
  -- journal is poisoned or the system is sound.
  pub mark_rolled_back-Stays :
      (write : Outcome) (synced : Bool) (index : ℕ)
      → j.poisoned ≡ false
      → Stays sha256 digest_32 c block s (mark_rolled_back write synced j index)
  unfolding mark_rolled_back
  mark_rolled_back-Stays write synced index live =
      let P = Stays sha256 digest_32 c block s in
      subst P (sym (if_false _ _ live))
        (elim (Bool-cases (not (j.appended_end == j.published_end))) [
          | inl unsettled ↦ subst P (sym (if_true _ _ unsettled)) (inr h)
          | inr settled ↦
              subst P (sym (if_false _ _ settled))
                (elim (Bool-cases (leb (length (published_records j)) index)) [
                  | inl outside ↦ subst P (sym (if_true _ _ outside)) (inr h)
                  | inr inside ↦
                      subst P (sym (if_false _ _ inside))
                        (elim (Option-cases (get_elem? j.records index)) [
                          | inl absent ↦ rw absent (inr h)
                          | inr (r, found) ↦ rw found (
                              set_status-Stays (ground (arith, settled)) write synced index r found)
                        ])
                ])
        ])
