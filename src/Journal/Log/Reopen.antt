-- ===== src/Journal/Log/Reopen.antt =====
-- src/forest_journal.rs: opening the files that a stop left behind.
use mathlib.Core.Path.{Path}
use rpc_utreexo_bridge.Base.{
  ℕ, ◌≤◌, ◌≡◌, refl, sym, subst, inl, inr, false, Bool, List, [], ◌++◌, append-nil, length, ◌==◌,
  Bool-cases, arith, ok, Result,
}
use rpc_utreexo_bridge.File.{
  File, Outcome, done, failed, SameOn, SameOn-trans, set_len, set_len-SameOn,
}
use rpc_utreexo_bridge.Consensus.{BitcoinConsensus}
use rpc_utreexo_bridge.Journal.Marker.Defs.{encode_publication_marker}
use rpc_utreexo_bridge.Journal.Marker.Slot.{stored}
use rpc_utreexo_bridge.Journal.Record.Types.{BlockHeader}
use rpc_utreexo_bridge.Journal.Log.State.{ForestJournal, LogError}
use rpc_utreexo_bridge.Journal.Log.Open.{open_journal, opened, cut_suffix}
use rpc_utreexo_bridge.Journal.Log.Chain.{Chain-append}
use rpc_utreexo_bridge.Journal.Log.Sound.{Marked, System, IsSound, Laid-published, Laid-below}
use rpc_utreexo_bridge.Journal.Log.Recover.{recover-Sound}

module _ {H : Type 0} (sha256 : List ℕ → List ℕ)
    (digest_32 : (bs : List ℕ) → length (sha256 bs) ≡ 32) (c : BitcoinConsensus)
    (block : BlockHeader H) (s : System H) (h : IsSound sha256 digest_32 c block s) where
  abbrev j : ForestJournal H
  j = s.journal

  -- The journal that `open` makes of a file, a new system around it.
  abbrev reopened : Bool → File → System H
  reopened clean file = record {
    journal =
        opened sha256 c block file j.marker_file clean
          (j.page_size, j.journal_id, stored j.marker, h.gone ++ h.kept);
    boundaries = [];
    prunes = [];
  }

  stored-Marked :
      Marked sha256 digest_32 c block j.marker_file j.page_size j.journal_id (stored j.marker)
  unfolding encode_publication_marker
  stored-Marked =
      let k = h.sound.marked in
      record {
        same_id = k.same_id;
        marker_typed = record {
          id_32 = k.marker_typed.id_32;
          generation_u64 = k.marker_typed.generation_u64;
          replay_u64 = k.marker_typed.replay_u64;
          end_u64 = k.marker_typed.end_u64;
          offset_u64 = k.marker_typed.offset_u64;
          height_u32 = k.marker_typed.height_u32;
          hash_32 = k.marker_typed.hash_32;
          checksum_32 = k.marker_typed.checksum_32;
        };
        marker_consistent = record {
          replay_in = k.marker_consistent.replay_in;
          replay_aligned = k.marker_consistent.replay_aligned;
          replay_le_end = k.marker_consistent.replay_le_end;
          end_aligned = k.marker_consistent.end_aligned;
          last_in = k.marker_consistent.last_in;
        };
        marker_held = k.marker_held;
        marker_read = k.marker_read;
      }

  reopened-IsSound :
      (clean : Bool) (file : File)
      → SameOn j.file.byte_at file.byte_at 0 j.marker.boundary.end
      → j.marker.boundary.end ≤ file.len
      → IsSound sha256 digest_32 c block (reopened clean file)
  reopened-IsSound clean file same fits =
      let l =
        Laid-below sha256 digest_32 c block (Laid-published sha256 digest_32 c block h.sound.laid)
          file same fits in
      record {
        gone = [];
        kept = h.gone ++ h.kept;
        tail = [];
        mid = j.marker.replay_start;
        sound = record {
          in_memory = sym (append-nil (h.gone ++ h.kept));
          laid = record {
            gone_chain = refl;
            kept_chain =
                Chain-append sha256 c block j.page_size file j.marker.replay_start h.mid
                  j.marker.boundary.end h.gone h.kept l.gone_chain l.kept_chain;
            tail_chain = refl;
            file_end = fits;
            superblock = l.superblock;
            page_large = l.page_large;
            first_page = l.first_page;
          };
          marked = stored-Marked;
          published = refl;
          last_is = h.sound.last_is;
        };
        handed = tt;
        pending = tt;
      }

  -- What `open` gives.
  pub record Reopens (clean : Bool) (j' : ForestJournal H) : Type 0 where
    pub is_sound :
        IsSound sha256 digest_32 c block (record { journal = j'; boundaries = []; prunes = [] })
    pub same_marker : j'.marker ≡ stored j.marker
    pub same_records : j'.records ≡ h.gone ++ h.kept
    pub live : j'.poisoned ≡ false

  -- A sound system, and a file that agrees with the journal's below the published end: opening it succeeds when the cut of
  -- the suffix does, and whenever it succeeds, the journal is not poisoned, has the published marker and exactly the published
  -- records, and a new system around it is sound.
  pub open_journal-Reopens :
      (cut : Outcome) (clean : Bool) (file : File)
      → SameOn j.file.byte_at file.byte_at 0 j.marker.boundary.end
      → j.marker.boundary.end ≤ file.len
      → ((j' : ForestJournal H) × (open_journal sha256 c block done clean file j.marker_file
            ≡ ok j'))
        × ((j' : ForestJournal H)
            → open_journal sha256 c block cut clean file j.marker_file ≡ ok j'
            → Reopens clean j')
  unfolding open_journal
  open_journal-Reopens cut clean file same fits =
      let found =
        recover-Sound sha256 digest_32 c block j h.gone h.kept h.tail h.mid h.sound file same
          fits in
      (rw found (_, refl), λ j' e. step cut j' (rw found at e))
    where
      made :
          (f : File)
          → SameOn j.file.byte_at f.byte_at 0 j.marker.boundary.end
          → j.marker.boundary.end ≤ f.len
          → Reopens clean (reopened clean f).journal
      made f agree long = record {
        is_sound = reopened-IsSound clean f agree long;
        same_marker = refl;
        same_records = refl;
        live = refl;
      }

      step :
          (o : Outcome) (j' : ForestJournal H)
          → cut_suffix sha256 c block o file j.marker.boundary.end (λ f. (reopened clean f).journal)
            ≡ ok j'
          → Reopens clean j'
      step done j' e = elim (Bool-cases (file.len == j.marker.boundary.end)) [
        | inl exact ↦
            let e' : Path (Result LogError (ForestJournal H)) (ok (reopened clean file).journal)
                (ok j') =
              rw exact at e in
            subst (Reopens clean) (cc e') (made file same fits)
        | inr longer ↦
            let cut_file = set_len file j.marker.boundary.end in
            let e' : Path (Result LogError (ForestJournal H)) (ok (reopened clean cut_file).journal)
                (ok j') =
              rw longer at e in
            subst (Reopens clean) (cc e') (
              made cut_file
                (SameOn-trans _ _ _ 0 j.marker.boundary.end same
                  (set_len-SameOn file j.marker.boundary.end 0 j.marker.boundary.end fits))
                (unfold set_len in omega arith))
      ]
      step (failed left) j' e = elim (Bool-cases (file.len == j.marker.boundary.end)) [
        | inl exact ↦
            let e' : Path (Result LogError (ForestJournal H)) (ok (reopened clean file).journal)
                (ok j') =
              rw exact at e in
            subst (Reopens clean) (cc e') (made file same fits)
        | inr longer ↦ cc (rw longer at e)
      ]
