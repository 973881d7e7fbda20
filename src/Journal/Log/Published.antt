-- ===== src/Journal/Log/Published.antt =====
-- src/forest_journal.rs: the state after a publication is sound.
use rpc_utreexo_bridge.Base.{
  ℕ, suc, ◌^◌, ◌+◌, ◌%◌, ◌≤◌, ◌<◌, ◌≡◌, refl, ap, ◌∙◌, sym, subst, inl, inr, List, [], ◌∷◌, ◌++◌,
  append_assoc, IsIn, IsIn-append, arith, ok, length,
}
use rpc_utreexo_bridge.File.{File}
use rpc_utreexo_bridge.Consensus.{BitcoinConsensus}
use rpc_utreexo_bridge.Journal.Marker.Defs.{
  JournalBoundary, PublicationMarker, read_publication_marker, write_publication_marker,
}
use rpc_utreexo_bridge.Journal.Marker.Slot.{
  IsTypedMarker, IsConsistent, stored, read_exact_at-write_publication_marker,
}
use rpc_utreexo_bridge.Journal.Marker.Recovery.{Follows, read_publication_marker-written}
use rpc_utreexo_bridge.Journal.Record.Types.{
  BlockHeader, JournalRecord, record_boundary, last_boundary,
}
use rpc_utreexo_bridge.Journal.Record.Held.{Held}
use rpc_utreexo_bridge.Journal.Log.State.{ForestJournal}
use rpc_utreexo_bridge.Journal.Log.Chain.{
  Chain, Chain-append, Chain-split, Chain-snoc, Chain-IsIn, Chain-aligned, Chain-le,
}
use rpc_utreexo_bridge.Journal.Log.Sound.{Marked, Sound, IsCurrent, last_boundary-append}

module _ {H : Type 0} (sha256 : List ℕ → List ℕ)
    (digest_32 : (bs : List ℕ) → length (sha256 bs) ≡ 32) (c : BitcoinConsensus)
    (block : BlockHeader H) where
  -- A marker that follows the one on disk takes its place.
  pub Marked-write :
      (marker_file : File) (page_size : ℕ) (journal_id : List ℕ) (m next : PublicationMarker)
      → Marked sha256 digest_32 c block marker_file page_size journal_id m
      → Follows m next
      → IsTypedMarker next
      → IsConsistent page_size next
      → Marked sha256 digest_32 c block
          (write_publication_marker sha256 marker_file next)
          page_size
          journal_id
          next
  Marked-write marker_file page_size journal_id m next k f tn cn = record {
    same_id = f.same_journal ∙ k.same_id;
    marker_typed = tn;
    marker_consistent = cn;
    marker_held = read_exact_at-write_publication_marker sha256 digest_32 next tn marker_file;
    marker_read =
        subst
          (λ (id : List ℕ).
            read_publication_marker sha256 (write_publication_marker sha256 marker_file next) id
              page_size
            ≡ ok (stored next))
          k.same_id
          (read_publication_marker-written sha256 digest_32 m next page_size k.marker_typed
            k.marker_consistent tn cn f marker_file k.marker_held);
  }

  module _ (j : ForestJournal H) (gone kept tail : List (JournalRecord H)) (mid : ℕ)
      (s : Sound sha256 digest_32 c block j gone kept tail mid) (pre : List (JournalRecord H))
      (r : JournalRecord H) (post : List (JournalRecord H)) (parts : tail ≡ pre ++ (r ∷ post))
      (g : ℕ) (next_g : g ≡ suc j.marker.generation) (g_u64 : g < 256 ^ 8) where
    abbrev b : JournalBoundary
    b = record_boundary r j.journal_id j.epoch

    abbrev next : PublicationMarker
    next = record { generation = g; replay_start = j.marker.replay_start; boundary = b }

    abbrev published_journal : ForestJournal H
    published_journal = record j {
      marker_file = write_publication_marker sha256 j.marker_file next;
      marker = next;
      published_end = b.end;
    }

    -- The record and what lies around it.
    split :
        (at : ℕ) × Chain sha256 c block j.page_size j.file j.marker.boundary.end
          (pre ++ (r ∷ []))
          (r.offset + r.span)
        × Chain sha256 c block j.page_size j.file (r.offset + r.span) post j.appended_end
        × Held sha256 c block j.page_size j.file r
        × (r.offset % j.page_size ≡ 0)
        × ((r.offset + r.span) % j.page_size ≡ 0)
        × (j.marker.boundary.end ≤ r.offset)
        × (0 < r.span)
        × Chain sha256 c block j.page_size j.file j.marker.boundary.end pre r.offset
    split =
        let whole =
          subst
            (λ (rs : List (JournalRecord H)).
              Chain sha256 c block j.page_size j.file j.marker.boundary.end rs j.appended_end)
            parts s.laid.tail_chain in
        let (at, front, back) =
          Chain-split sha256 c block j.page_size j.file j.marker.boundary.end j.appended_end pre
            (r ∷ post) whole in
        let pages = s.marked.marker_consistent.end_aligned in
        let same : at ≡ r.offset = sym back.0.at in
        let front' =
          subst (λ (o : ℕ). Chain sha256 c block j.page_size j.file j.marker.boundary.end pre o)
            same front in
        let stop : at + r.span ≡ r.offset + r.span = ap (λ (o : ℕ). o + r.span) same in
        let grown =
          subst
            (λ (o : ℕ).
              Chain sha256 c block j.page_size j.file j.marker.boundary.end (pre ++ (r ∷ [])) o)
            stop
            (Chain-snoc sha256 c block j.page_size j.file j.marker.boundary.end at pre r front
              back.0) in
        let rest =
          subst (λ (o : ℕ). Chain sha256 c block j.page_size j.file o post j.appended_end) stop
            back.1 in
        (
          at,
          grown,
          rest,
          back.0.held,
          Chain-aligned sha256 c block j.page_size j.file _ _ pre front' pages,
          Chain-aligned sha256 c block j.page_size j.file _ _ (pre ++ (r ∷ [])) grown pages,
          Chain-le sha256 c block j.page_size j.file _ _ pre front',
          back.0.some_page,
          front',
        )

    next-IsTypedMarker : IsTypedMarker next
    unfolding record_boundary
    next-IsTypedMarker =
        let (at, grown, rest, held, page, end_page, from, pos, front) = split in
        let d = held.describes in
        record {
          id_32 = ap length (sym s.marked.same_id) ∙ s.marked.marker_typed.id_32;
          generation_u64 = g_u64;
          replay_u64 = s.marked.marker_typed.replay_u64;
          end_u64 = omega (arith, d.end_u64);
          offset_u64 = omega (arith, d.end_u64);
          height_u32 = d.spelled.height_u32;
          hash_32 = d.spelled.hash_32;
          checksum_32 = ap length d.sealed ∙ digest_32 held.payload;
        }

    next-IsConsistent : IsConsistent j.page_size next
    unfolding record_boundary
    next-IsConsistent =
        let (at, grown, rest, held, page, end_page, from, pos, front) = split in
        let old = s.marked.marker_consistent in
        record {
          replay_in = old.replay_in;
          replay_aligned = old.replay_aligned;
          replay_le_end = omega (arith, old.replay_le_end, from);
          end_aligned = end_page;
          last_in = inr (omega (arith, old.replay_le_end, from), omega (arith, pos), page);
        }

    next-Follows : Follows j.marker next
    unfolding record_boundary
    next-Follows =
        let (at, grown, rest, held, page, end_page, from, pos, front) = split in
        record {
          same_journal = sym s.marked.same_id;
          later = next_g;
          end_le = omega (arith, from);
          replay_le = omega arith;
          same_record = λ e. absurd (omega (arith, from, pos, e));
        }

    pub published-Sound :
        Sound sha256 digest_32 c block published_journal gone (kept ++ (pre ++ (r ∷ []))) post mid
    unfolding record_boundary last_boundary
    published-Sound =
        let (at, grown, rest, held, page, end_page, from, pos, front) = split in
        let l = s.laid in
        record {
          in_memory = s.in_memory ∙ ap (◌++◌ kept) parts ∙ simp append_assoc;
          laid = record {
            gone_chain = l.gone_chain;
            kept_chain =
                Chain-append sha256 c block j.page_size j.file mid j.marker.boundary.end _ kept
                  (pre ++ (r ∷ [])) l.kept_chain grown;
            tail_chain = rest;
            file_end = l.file_end;
            superblock = l.superblock;
            page_large = l.page_large;
            first_page = l.first_page;
          };
          marked =
              Marked-write j.marker_file j.page_size j.journal_id j.marker next s.marked
                next-Follows next-IsTypedMarker next-IsConsistent;
          published = refl;
          last_is =
              ap (last_boundary j.journal_id 0 j.page_size) regroup
              ∙ last_boundary-append j.journal_id 0 j.page_size (gone ++ (kept ++ pre)) r [];
        }
      where
        regroup : gone ++ (kept ++ (pre ++ (r ∷ []))) ≡ (gone ++ (kept ++ pre)) ++ (r ∷ [])
        regroup = simp append_assoc

    -- A boundary that was current is still, or is not behind the new end.
    pub published-IsCurrent :
        (b' : JournalBoundary)
        → IsCurrent sha256 digest_32 c block j tail b'
        → IsCurrent sha256 digest_32 c block published_journal post b'
    unfolding record_boundary
    published-IsCurrent b' cur =
        let (at, grown, rest, held, page, end_page, from, pos, front) = split in
        (
          cur.0,
          λ now late.
              let (q, there, same) = cur.1 now (omega (arith, late, from)) in
              let stops : b'.end ≡ q.offset + q.span = ap (λ (x : JournalBoundary). x.end) same in
              elim (IsIn-append q pre (r ∷ post) (subst (IsIn q) parts there)) [
                | inl early ↦ absurd (
                    omega (
                      arith,
                      late,
                      stops,
                      (Chain-IsIn sha256 c block j.page_size j.file j.marker.boundary.end r.offset
                          pre q front s.marked.marker_consistent.end_aligned early).1,
                    ))
                | inr (inl e) ↦
                    let at_r : q.offset + q.span ≡ r.offset + r.span =
                      ap (λ (x : JournalRecord H). x.offset + x.span) e in
                    absurd (omega (arith, late, stops, at_r))
                | inr (inr later) ↦ (q, later, same)
              ],
        )
