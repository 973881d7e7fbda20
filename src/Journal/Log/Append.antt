-- ===== src/Journal/Log/Append.antt =====
-- src/forest_journal.rs: appending a record and handing out a boundary keep the journal sound.
use rpc_utreexo_bridge.Base.{
  ℕ, ◌+◌, ◌≤◌, ◌≡◌, refl, ap, ◌∙◌, sym, subst, inl, inr, true, false, List, [], ◌∷◌, ◌++◌,
  append_assoc, IsIn, IsIn-append, IsIn-append_left, All-map, arith, ok, err, length, Result,
  Option, if_false,
}
use rpc_utreexo_bridge.File.{
  File, Outcome, done, failed, SameOn, SameOn-trans, set_len, set_len-SameOn,
}
use rpc_utreexo_bridge.Consensus.{BitcoinConsensus}
use rpc_utreexo_bridge.Journal.Entry.Types.{JournalEntry}
use rpc_utreexo_bridge.Journal.Record.Types.{
  BlockHeader, JournalReplayPayload, JournalRecord, RecordError, record_boundary, empty_boundary,
}
use rpc_utreexo_bridge.Journal.Record.Disk.{WriteOutcome, write_record}
use rpc_utreexo_bridge.Journal.Record.Held.{IsPayload}
use rpc_utreexo_bridge.Journal.Record.Stored.{
  Appends, Spares, IsSpared, write_record-Appends, write_record-IsSpared,
}
use rpc_utreexo_bridge.Journal.Log.State.{ForestJournal, boundary}
use rpc_utreexo_bridge.Journal.Log.Operations.{settle, append_payload}
use rpc_utreexo_bridge.Journal.Log.Chain.{Chain, Chain-snoc, Chain-IsIn, Chain-aligned}
use rpc_utreexo_bridge.Journal.Log.Sound.{
  Sound, System, IsSound, IsCurrent, Stays, last_boundary-IsIn, ordered, Laid-below,
}

module _ {H : Type 0} (sha256 : List ℕ → List ℕ)
    (digest_32 : (bs : List ℕ) → length (sha256 bs) ≡ 32) (c : BitcoinConsensus)
    (block : BlockHeader H) where
  -- The boundary that the journal hands out is current.
  pub boundary-IsCurrent :
      (j : ForestJournal H) (gone kept tail : List (JournalRecord H)) (mid : ℕ)
      → Sound sha256 digest_32 c block j gone kept tail mid
      → IsCurrent sha256 digest_32 c block j tail (boundary j)
  unfolding boundary empty_boundary record_boundary
  boundary-IsCurrent j gone kept tail mid s =
      let (a, b, d, e) = ordered sha256 digest_32 c block s.laid in
      let pages =
        Chain-aligned sha256 c block j.page_size j.file _ _ gone s.laid.gone_chain
          s.marked.marker_consistent.replay_aligned in
      elim (last_boundary-IsIn j.journal_id j.epoch j.page_size j.records) [
        | inl none_there ↦
            rw none_there (omega arith, λ _ late. absurd (omega (arith, late, a, b, d)))
        | inr (r, there, same) ↦ rw same (
          omega arith,
          λ _ late. elim (IsIn-append r kept tail (subst (IsIn r) s.in_memory there)) [
            | inl early ↦ absurd (
                omega (
                  arith,
                  late,
                  (Chain-IsIn sha256 c block j.page_size j.file mid j.marker.boundary.end kept r
                      s.laid.kept_chain pages early).1,
                ))
            | inr here ↦ (r, here, refl)
          ],
        )
      ]

  module _ (s : System H) (h : IsSound sha256 digest_32 c block s) where
    abbrev j : ForestJournal H
    j = s.journal

    -- The file may change behind the appended end.
    pub file-IsSound :
        (file' : File)
        → SameOn j.file.byte_at file'.byte_at 0 j.appended_end
        → j.appended_end ≤ file'.len
        → IsSound sha256 digest_32 c block (record s { journal = record j { file = file' } })
    file-IsSound file' same fits = record {
      gone = h.gone;
      kept = h.kept;
      tail = h.tail;
      mid = h.mid;
      sound = record {
        in_memory = h.sound.in_memory;
        laid = Laid-below sha256 digest_32 c block h.sound.laid file' same fits;
        marked = h.sound.marked;
        published = h.sound.published;
        last_is = h.sound.last_is;
      };
      handed = h.handed;
      pending = h.pending;
    }

    -- One more record at the end.
    grow-IsSound :
        (file' : File) (r : JournalRecord H)
        → Appends sha256 digest_32 c block j.page_size j.file j.appended_end file' r
        → IsSound sha256 digest_32 c block (record s {
          journal = record j {
            file = file';
            records = j.records ++ (r ∷ []);
            appended_end = r.offset + r.span;
            needs_replay = true;
          };
        })
    grow-IsSound file' r a =
        let end_at : j.appended_end + r.span ≡ r.offset + r.span = omega (arith, a.at_offset) in
        let l =
          Laid-below sha256 digest_32 c block h.sound.laid file' a.below
            (omega (arith, a.len_end)) in
        record {
          gone = h.gone;
          kept = h.kept;
          tail = h.tail ++ (r ∷ []);
          mid = h.mid;
          sound = record {
            in_memory =
                ap (λ (rs : List (JournalRecord H)). rs ++ (r ∷ [])) h.sound.in_memory
                ∙ append_assoc h.kept h.tail (r ∷ []);
            laid = record {
              gone_chain = l.gone_chain;
              kept_chain = l.kept_chain;
              tail_chain =
                  subst
                    (λ (e : ℕ).
                      Chain sha256 c block j.page_size file' j.marker.boundary.end
                        (h.tail ++ (r ∷ [])) e)
                    end_at
                    (Chain-snoc sha256 c block j.page_size file' j.marker.boundary.end
                      j.appended_end h.tail r l.tail_chain
                      (record {
                        at = a.at_offset;
                        held = a.held;
                        pages = a.span_aligned;
                        some_page = a.span_pos;
                      }));
              file_end = omega (arith, a.len_end, a.at_offset);
              superblock = l.superblock;
              page_large = l.page_large;
              first_page = l.first_page;
            };
            marked = h.sound.marked;
            published = h.sound.published;
            last_is = h.sound.last_is;
          };
          handed =
              All-map
                (λ b cur. (
                  cur.0,
                  λ now late.
                      let (q, there, same) = cur.1 now late in
                      (q, IsIn-append_left q h.tail (r ∷ []) there, same),
                ))
                s.boundaries h.handed;
          pending = h.pending;
        }

    settle-IsSound :
        (cut : Outcome) (q : File × Result RecordError (JournalRecord H))
        → IsSpared j.file j.appended_end q.0
        → ((r : JournalRecord H)
            → q.1 ≡ ok r
            → Appends sha256 digest_32 c block j.page_size j.file j.appended_end q.0 r)
        → Stays sha256 digest_32 c block s (settle sha256 c block cut j q)
    settle-IsSound cut (file', ok r) spared appends = inr (grow-IsSound file' r (appends r refl))
    settle-IsSound done (file', err e) spared appends = inr (
        file-IsSound (set_len file' j.appended_end)
          (SameOn-trans _ _ _ 0 j.appended_end spared.0
            (set_len-SameOn file' j.appended_end 0 j.appended_end spared.1))
          (unfold set_len in omega arith))
    settle-IsSound (failed left) (file', err e) spared appends = inl refl

    -- An unpoisoned journal in a sound state, a payload that decodes to the entry, and calls that leave what lies below the
    -- appended end when they fail: after `append_payload` the journal is poisoned or sound.
    pub append_payload-IsSound :
        (io : WriteOutcome) (cut : Outcome) (entry : JournalEntry)
        (replay : Option (JournalReplayPayload H)) (payload : List ℕ) (format : ℕ)
        → j.poisoned ≡ false
        → Spares j.file j.appended_end io
        → IsPayload sha256 c block j.page_size format payload entry replay
        → Stays sha256 digest_32 c block s
            (append_payload sha256 c block io cut j entry replay payload format)
    unfolding append_payload
    append_payload-IsSound io cut entry replay payload format live spares p =
        let q =
          write_record sha256 c block io j.file j.page_size j.appended_end entry replay payload
            format in
        let start = h.sound.laid.file_end in
        subst (Stays sha256 digest_32 c block s) (sym (if_false _ _ live)) (
          settle-IsSound cut q
            (write_record-IsSpared sha256 digest_32 c block j.page_size j.file j.appended_end entry
              replay payload format io start spares)
            (λ r made.
              (write_record-Appends sha256 digest_32 c block j.page_size j.file j.appended_end entry
                replay payload format io start p (cc made)).0))
