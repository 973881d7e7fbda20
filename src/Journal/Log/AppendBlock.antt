-- ===== src/Journal/Log/AppendBlock.antt =====
-- src/forest_journal.rs: `append_block` keeps the system of the journal sound, or poisons it.
use rpc_utreexo_bridge.Base.{
  ℕ, ◌≡◌, ap, ◌∙◌, sym, subst, ◌⊎◌, inl, inr, true, false, not, ◌||◌, List, ◌∷◌, arith, ok, err,
  length, Result, Option, some, Bool-cases, Option-cases, Result-cases, ltb, if_false, if_true,
}
use rpc_utreexo_bridge.File.{Outcome}
use rpc_utreexo_bridge.Consensus.{BitcoinConsensus, Laws, IsLawful}
use rpc_utreexo_bridge.Journal.Entry.Types.{JournalEntry, IsTyped, Fits}
use rpc_utreexo_bridge.Udata.Types.{IsServable}
use rpc_utreexo_bridge.Journal.Marker.Defs.{JournalBoundary}
use rpc_utreexo_bridge.Journal.Record.Types.{BlockHeader, JournalReplayPayload}
use rpc_utreexo_bridge.Journal.Record.Payload.{
  encode_payload, header_matches, is_none, record_version,
}
use rpc_utreexo_bridge.Journal.Record.Disk.{WriteOutcome}
use rpc_utreexo_bridge.Journal.Record.Stored.{Spares}
use rpc_utreexo_bridge.Journal.Record.RoundTrip.{IsAppendable, encode_payload-IsPayload}
use rpc_utreexo_bridge.Journal.Log.State.{LogError, ForestJournal, boundary, and_then}
use rpc_utreexo_bridge.Journal.Log.Operations.{append_block}
use rpc_utreexo_bridge.Journal.Log.Sound.{System, IsSound, Stays}
use rpc_utreexo_bridge.Journal.Log.Append.{boundary-IsCurrent, append_payload-IsSound}

-- The system after `append_block`: the boundary that it returned is handed out.
abbrev pub after_append :
    {H : Type 0} → System H → ForestJournal H × Result LogError JournalBoundary → System H
after_append s (j', ok b) = record s { journal = j'; boundaries = b ∷ s.boundaries }
after_append s (j', err e) = record s { journal = j' }

module _ {H : Type 0} (sha256 : List ℕ → List ℕ)
    (digest_32 : (bs : List ℕ) → length (sha256 bs) ≡ 32) (c : BitcoinConsensus) (laws : Laws c)
    (block : BlockHeader H) (V : H → Type 0) (header_lawful : IsLawful V block.codec) where
  -- The ranges that the Rust types give to a block.
  pub record IsTypedBlock (entry : JournalEntry) (replay : JournalReplayPayload H) : Type 0 where
    pub typed : IsTyped entry
    pub fits : Fits entry
    pub header_valid : V replay.header
    pub servable : IsServable replay.proof

  abbrev Extends : System H → ForestJournal H × Result LogError JournalBoundary → Type 0
  Extends s q =
      ((after_append s q).journal.poisoned ≡ true)
      ⊎ IsSound sha256 digest_32 c block (after_append s q)

  hand_out-IsSound :
      (s : System H) (q : ForestJournal H × Result LogError ℕ)
      → Stays sha256 digest_32 c block s q
      → Extends s (and_then q (λ j' _. (j', ok (boundary j'))))
  hand_out-IsSound s (j', err e) stays = stays
  hand_out-IsSound s (j', ok i) (inl dead) = inl dead
  hand_out-IsSound s (j', ok i) (inr h) = inr (record {
    gone = h.gone;
    kept = h.kept;
    tail = h.tail;
    mid = h.mid;
    sound = h.sound;
    handed = (
      boundary-IsCurrent sha256 digest_32 c block j' h.gone h.kept h.tail h.mid h.sound,
      h.handed,
    );
    pending = h.pending;
  })

  checks-IsAppendable :
      (page_size : ℕ) (entry : JournalEntry) (replay : JournalReplayPayload H)
      → IsTypedBlock entry replay
      → (is_none entry.forest_rows || ltb 63 replay.proof_forest_rows) ≡ false
      → not (header_matches c block replay.header entry) ≡ false
      → IsAppendable sha256 c laws block page_size V header_lawful entry replay
  checks-IsAppendable page_size entry replay t layouts same =
      elim (Option-cases entry.forest_rows) [
        | inl no_rows ↦
            let bad =
              ap (λ (o : Option ℕ). is_none o || ltb 63 replay.proof_forest_rows) (sym no_rows)
              ∙ layouts in
            cc bad
        | inr (rows, some_rows) ↦ record {
          typed = t.typed;
          fits = t.fits;
          rows = rows;
          has_rows = some_rows;
          proof_rows = ground (arith, layouts);
          matches = ground (arith, same);
          header_valid = t.header_valid;
          servable = t.servable;
        }
      ]

  -- A sound system whose journal is not poisoned, a block of typed fields, and calls that leave what lies below the appended
  -- end when they fail: after `append_block`, the journal is poisoned or the system with the boundary handed out is sound.
  pub append_block-IsSound :
      (s : System H) (io : WriteOutcome) (cut : Outcome) (entry : JournalEntry)
      (replay : JournalReplayPayload H)
      → IsSound sha256 digest_32 c block s
      → s.journal.poisoned ≡ false
      → Spares s.journal.file s.journal.appended_end io
      → IsTypedBlock entry replay
      → Extends s (append_block sha256 c block io cut s.journal entry replay)
  unfolding append_block
  append_block-IsSound s io cut entry replay h live spares t =
      elim (Bool-cases (is_none entry.forest_rows || ltb 63 replay.proof_forest_rows)) [
        | inl refused ↦ subst (Extends s) (sym (if_true _ _ refused)) (inr h)
        | inr layouts ↦
            subst (Extends s) (sym (if_false _ _ layouts))
              (elim (Bool-cases (not (header_matches c block replay.header entry))) [
                | inl other ↦ subst (Extends s) (sym (if_true _ _ other)) (inr h)
                | inr same ↦
                    subst (Extends s) (sym (if_false _ _ same))
                      (elim (Result-cases (encode_payload c block entry replay)) [
                        | inr (e, failed_encode) ↦ rw failed_encode (inr h)
                        | inl (payload, made) ↦ rw made (
                            hand_out-IsSound s _ (
                              append_payload-IsSound sha256 digest_32 c block s h io cut entry
                                (some replay) payload record_version live spares
                                (encode_payload-IsPayload sha256 c laws block s.journal.page_size V
                                  header_lawful entry replay
                                  (checks-IsAppendable s.journal.page_size entry replay t layouts
                                    same)
                                  made)))
                      ])
              ])
      ]
