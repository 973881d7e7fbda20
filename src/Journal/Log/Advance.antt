-- ===== src/Journal/Log/Advance.antt =====
-- src/forest_journal.rs: one of the two markers of `JournalPrune::finish`, with a later replay floor.
use rpc_utreexo_bridge.Base.{
  length, ℕ, suc, ◌^◌, ◌≤◌, ◌<◌, ◌≡◌, refl, ap, ◌∙◌, sym, subst, inl, inr, true, false, Bool, List,
  [], ◌∷◌, ◌++◌, append_assoc, IsIn, IsIn-append, All-map, Option-cases, arith, Result, checked_add,
}
use rpc_utreexo_bridge.File.{Outcome, done, failed}
use rpc_utreexo_bridge.Consensus.{BitcoinConsensus}
use rpc_utreexo_bridge.Journal.Marker.Defs.{PublicationMarker, write_publication_marker}
use rpc_utreexo_bridge.Journal.Marker.Slot.{IsTypedMarker, IsConsistent, stored}
use rpc_utreexo_bridge.Journal.Marker.Recovery.{Follows}
use rpc_utreexo_bridge.Journal.Record.Types.{BlockHeader, JournalRecord, last_boundary}
use rpc_utreexo_bridge.Journal.Record.Plan.{checked_add-eq-some}
use rpc_utreexo_bridge.Journal.Log.State.{ForestJournal, LogError, and_then}
use rpc_utreexo_bridge.Journal.Log.Operations.{store_marker, advance_marker}
use rpc_utreexo_bridge.Journal.Log.Chain.{
  Chain, Chain-empty, Chain-append, Chain-IsIn, Chain-aligned, Chain-le,
}
use rpc_utreexo_bridge.Journal.Log.Sound.{System, IsSound, Stays, ordered, last_boundary-append}
use rpc_utreexo_bridge.Journal.Log.Published.{Marked-write}

module _ {H : Type 0} (sha256 : List ℕ → List ℕ)
    (digest_32 : (bs : List ℕ) → length (sha256 bs) ≡ 32) (c : BitcoinConsensus)
    (block : BlockHeader H) where
  module _ (s : System H) (h : IsSound sha256 digest_32 c block s) where
    abbrev j : ForestJournal H
    j = s.journal

    abbrev next : ℕ → ℕ → PublicationMarker
    next g start = record { generation = g; replay_start = start; boundary = j.marker.boundary }

    abbrev advanced : ℕ → ℕ → System H
    advanced g start = record s {
      journal = record j {
        marker_file = write_publication_marker sha256 j.marker_file (next g start);
        marker = next g start;
      };
    }

    module _ (start g : ℕ) (from : List (JournalRecord H)) (rest : List (JournalRecord H))
        (parts : h.gone ≡ from ++ rest)
        (front : Chain sha256 c block j.page_size j.file j.marker.replay_start from start)
        (back : Chain sha256 c block j.page_size j.file start rest h.mid)
        (up_to : start ≤ j.marker.boundary.offset) (later : g ≡ suc j.marker.generation)
        (g_u64 : g < 256 ^ 8) where
      passed : j.marker.replay_start ≤ start
      passed = Chain-le sha256 c block j.page_size j.file _ _ from front

      next-IsConsistent : IsConsistent j.page_size (next g start)
      next-IsConsistent =
          let old = h.sound.marked.marker_consistent in
          let (a, b, d, e) = ordered sha256 digest_32 c block h.sound.laid in
          let le = Chain-le sha256 c block j.page_size j.file start h.mid rest back in
          record {
            replay_in = omega (arith, old.replay_in, passed);
            replay_aligned =
                Chain-aligned sha256 c block j.page_size j.file _ _ from front old.replay_aligned;
            replay_le_end = omega (arith, le, d);
            end_aligned = old.end_aligned;
            last_in = elim old.last_in [
              | inl empty ↦ inl empty
              | inr (low, high, page) ↦ inr (up_to, high, page)
            ];
          }

      next-IsTypedMarker : IsTypedMarker (next g start)
      next-IsTypedMarker =
          let t = h.sound.marked.marker_typed in
          record {
            id_32 = t.id_32;
            generation_u64 = g_u64;
            replay_u64 = omega (arith, up_to, t.offset_u64);
            end_u64 = t.end_u64;
            offset_u64 = t.offset_u64;
            height_u32 = t.height_u32;
            hash_32 = t.hash_32;
            checksum_32 = t.checksum_32;
          }

      next-Follows : Follows j.marker (next g start)
      next-Follows = record {
        same_journal = refl;
        later = later;
        end_le = omega arith;
        replay_le = passed;
        same_record = λ _. refl;
      }

      -- What is left holds the last published record.
      last-kept :
          last_boundary j.journal_id 0 j.page_size (rest ++ h.kept) ≡ (stored j.marker).boundary
      last-kept = last-of (rest ++ h.kept) refl
        where
          whole :
              last_boundary j.journal_id 0 j.page_size (from ++ (rest ++ h.kept))
              ≡ (stored j.marker).boundary
          whole =
              ap (last_boundary j.journal_id 0 j.page_size) (
                sym (append_assoc from rest h.kept)
                ∙ ap (λ (rs : List (JournalRecord H)). rs ++ h.kept) (sym parts))
              ∙ h.sound.last_is

          last-of :
              (rs : List (JournalRecord H))
              → rs ≡ rest ++ h.kept
              → last_boundary j.journal_id 0 j.page_size rs ≡ (stored j.marker).boundary
          last-of [] none_left =
              let (a, b, d, e) = ordered sha256 digest_32 c block h.sound.laid in
              let chain =
                Chain-append sha256 c block j.page_size j.file start h.mid j.marker.boundary.end
                  rest h.kept back h.sound.laid.kept_chain in
              let ends : start ≡ j.marker.boundary.end =
                subst
                  (λ (rs : List (JournalRecord H)).
                    Chain sha256 c block j.page_size j.file start rs j.marker.boundary.end)
                  (sym none_left) chain in
              elim h.sound.marked.marker_consistent.last_in [
                | inr (low, high, page) ↦ absurd (omega (arith, ends, up_to, high))
                | inl empty ↦
                    let still : start ≡ j.marker.replay_start =
                      omega (arith, empty, ends, a, passed) in
                    let none_passed =
                      Chain-empty sha256 c block j.page_size j.file j.marker.replay_start from (
                        subst
                          (λ (e : ℕ).
                            Chain sha256 c block j.page_size j.file j.marker.replay_start from e)
                          still front) in
                    ap (last_boundary j.journal_id 0 j.page_size) none_left
                    ∙ ap
                        (λ (fs : List (JournalRecord H)).
                          last_boundary j.journal_id 0 j.page_size (fs ++ (rest ++ h.kept)))
                        (sym none_passed)
                    ∙ whole
              ]
          last-of (r ∷ rs) same =
              sym (last_boundary-append j.journal_id 0 j.page_size from r rs)
              ∙ ap
                  (λ (qs : List (JournalRecord H)).
                    last_boundary j.journal_id 0 j.page_size (from ++ qs))
                  same
              ∙ whole

      advanced-IsSound : IsSound sha256 digest_32 c block (advanced g start)
      advanced-IsSound =
          let l = h.sound.laid in
          record {
            gone = rest;
            kept = h.kept;
            tail = h.tail;
            mid = h.mid;
            sound = record {
              in_memory = h.sound.in_memory;
              laid = record {
                gone_chain = back;
                kept_chain = l.kept_chain;
                tail_chain = l.tail_chain;
                file_end = l.file_end;
                superblock = l.superblock;
                page_large = l.page_large;
                first_page = omega (arith, l.first_page, passed);
              };
              marked =
                  Marked-write sha256 digest_32 c block j.marker_file j.page_size j.journal_id
                    j.marker (next g start) h.sound.marked next-Follows next-IsTypedMarker
                    next-IsConsistent;
              published = h.sound.published;
              last_is = last-kept;
            };
            handed = h.handed;
            pending =
                All-map
                  (λ p fine. elim fine [
                    | inl past ↦ inl (omega (arith, past, passed))
                    | inr (inl here) ↦ inr (inl here)
                    | inr (inr (q, there, at)) ↦
                        elim (IsIn-append q from rest (subst (IsIn q) parts there)) [
                          | inl early ↦ inl (
                              omega (
                                arith,
                                at,
                                (Chain-IsIn sha256 c block j.page_size j.file j.marker.replay_start
                                    start from q front
                                    h.sound.marked.marker_consistent.replay_aligned early).1,
                              ))
                          | inr late ↦ inr (inr (q, late, at))
                        ]
                  ])
                  s.prunes h.pending;
          }

    -- A marker with a later floor, and what is done when it was stored.
    pub advance_marker-Stays :
        (write : Outcome) (flushed : Bool) (start : ℕ) (from rest : List (JournalRecord H))
        (next_step : ForestJournal H → ForestJournal H × Result LogError ℕ)
        → h.gone ≡ from ++ rest
        → Chain sha256 c block j.page_size j.file j.marker.replay_start from start
        → Chain sha256 c block j.page_size j.file start rest h.mid
        → start ≤ j.marker.boundary.offset
        → ((g : ℕ)
            → IsSound sha256 digest_32 c block (advanced g start)
            → Stays sha256 digest_32 c block s (next_step (advanced g start).journal))
        → Stays sha256 digest_32 c block s
            (and_then (advance_marker sha256 write flushed j start) (λ j' _. next_step j'))
    advance_marker-Stays write flushed start from rest next_step parts front back up_to goes =
        elim (Option-cases (checked_add j.marker.generation 1)) [
          | inl overflow ↦ rw (advance_marker, overflow) (inr h)
          | inr (g, sum) ↦
              let (exact, small) = checked_add-eq-some j.marker.generation 1 sum in
              rw (advance_marker, sum)
                (stored-Stays g write flushed (
                  goes g (
                    advanced-IsSound start g from rest parts front back up_to (omega (arith, exact))
                      (omega (arith, exact, small)))))
        ]
      where
        stored-Stays :
            (g : ℕ) (w : Outcome) (f : Bool)
            → Stays sha256 digest_32 c block s (next_step (advanced g start).journal)
            → Stays sha256 digest_32 c block s
                (and_then (store_marker sha256 w f j (next g start)) (λ j' _. next_step j'))
        stored-Stays g (failed left) f k = inl refl
        stored-Stays g done false k = inl refl
        stored-Stays g done true k = k
