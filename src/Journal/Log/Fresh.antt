-- ===== src/Journal/Log/Fresh.antt =====
-- src/forest_journal.rs: opening a journal that was just initialized.
use native.Mathlib.Nat.{mod_self}
use rpc_utreexo_bridge.Base.{
  ℕ, ◌^◌, ◌≤◌, ◌<◌, ◌≡◌, refl, ap, ◌∙◌, sym, true, List, [], ◌∷◌, ◌++◌, length, inl, arith, ok,
  le→leb, take, replicate, ◌*◌,
}
use rpc_utreexo_bridge.Bytes.{
  to_le_bytes, from_le_bytes, from_le_bytes-to_le_bytes, length-to_le_bytes, bytes_eq_refl,
}
use rpc_utreexo_bridge.Bytes.Segments.{
  slice, concat, total, slice-concat, take-concat, length-concat,
}
use rpc_utreexo_bridge.File.{
  File, read_exact_at, read-write_self, write_all_at, set_len, empty_file, len-write_inside,
}
use rpc_utreexo_bridge.Consensus.{BitcoinConsensus}
use rpc_utreexo_bridge.Journal.Marker.Defs.{write_publication_marker}
use rpc_utreexo_bridge.Journal.Marker.Slot.{
  IsTypedMarker, IsConsistent, read_exact_at-write_publication_marker,
}
use rpc_utreexo_bridge.Journal.Marker.Recovery.{Follows, read_publication_marker-written}
use rpc_utreexo_bridge.Journal.Record.Types.{BlockHeader, empty_boundary, last_boundary}
use rpc_utreexo_bridge.Journal.Record.Disk.{wal_magic}
use rpc_utreexo_bridge.Journal.Log.Initialize.{
  superblock_segments, superblock_bytes, first_marker, initial_file, initial_marker_file,
  initialize_journal,
}
use rpc_utreexo_bridge.Journal.Log.Open.{is_power_of_two, read_superblock, opened}
use rpc_utreexo_bridge.Journal.Log.Sound.{Marked, System, IsSound}

module _ {H : Type 0} (sha256 : List ℕ → List ℕ)
    (digest_32 : (bs : List ℕ) → length (sha256 bs) ≡ 32) (c : BitcoinConsensus)
    (block : BlockHeader H) (page_size : ℕ) (journal_id : List ℕ) (small : 4096 ≤ page_size)
    (large : page_size ≤ 65536) (power : is_power_of_two page_size ≡ true)
    (id_32 : length journal_id ≡ 32) where
  abbrev seal : List ℕ
  seal = sha256 (concat (superblock_segments page_size journal_id))

  total-superblock : total (superblock_segments page_size journal_id) ≡ 64
  total-superblock = omega (arith, length-to_le_bytes 8 page_size, id_32)

  length-superblock : length (superblock_bytes sha256 page_size journal_id) ≡ 96
  unfolding superblock_bytes
  length-superblock =
      length-concat (superblock_segments page_size journal_id ++ (seal ∷ []))
      ∙ omega (
        arith,
        length-to_le_bytes 8 page_size,
        id_32,
        digest_32 (concat (superblock_segments page_size journal_id)),
      )

  superblock-fields :
      let bytes = superblock_bytes sha256 page_size journal_id in
      (slice bytes 0 8 ≡ wal_magic)
      × (take 64 bytes ≡ concat (superblock_segments page_size journal_id))
      × (slice bytes 64 32 ≡ seal)
      × (from_le_bytes (slice bytes 8 8) ≡ page_size)
      × (slice bytes 16 32 ≡ journal_id)
  unfolding superblock_bytes
  superblock-fields =
      let eight = length-to_le_bytes 8 page_size in
      let segments = superblock_segments page_size journal_id in
      let from_id : List (List ℕ) = journal_id ∷ replicate 16 0 ∷ seal ∷ [] in
      (
        slice-concat [] wal_magic (to_le_bytes 8 page_size ∷ from_id) 0 8 refl refl,
        take-concat segments (seal ∷ []) 64 total-superblock,
        slice-concat segments seal [] 64 32 total-superblock (digest_32 (concat segments)),
        ap from_le_bytes
              (slice-concat (wal_magic ∷ []) (to_le_bytes 8 page_size) from_id 8 8 refl eight)
            ∙ from_le_bytes-to_le_bytes 8 page_size (omega (arith, large)),
        slice-concat (wal_magic ∷ to_le_bytes 8 page_size ∷ []) journal_id
            (replicate 16 0 ∷ seal ∷ []) 16 32 (omega (arith, eight)) id_32,
      )

  abbrev files : File × File
  files = initialize_journal sha256 page_size journal_id

  -- A page size from 4096 to 65536 that is a power of two and an identity of 32 bytes: the superblock of an initialized
  -- journal reads back as both.
  pub read_superblock-initialize_journal :
      read_superblock sha256 (initialize_journal sha256 page_size journal_id).0
      ≡ ok (page_size, journal_id)
  unfolding read_superblock initialize_journal initial_file
  read_superblock-initialize_journal =
      let bytes = superblock_bytes sha256 page_size journal_id in
      let read =
        ap (read_exact_at (write_all_at (set_len empty_file page_size) 0 bytes) 0)
          (sym length-superblock)
        ∙ read-write_self (set_len empty_file page_size) 0 bytes in
      let (magic, prefix, sum, page, id) = superblock-fields in
      rw
        (
          read,
          magic,
          bytes_eq_refl wal_magic,
          prefix,
          sum,
          bytes_eq_refl seal,
          page,
          le→leb 4096 page_size small,
          le→leb page_size 65536 large,
          power,
          id,
        )
        refl

  module _ (g : ℕ) (g_u64 : g < 256 ^ 8) where
    first-IsTypedMarker : IsTypedMarker (first_marker page_size journal_id g)
    unfolding empty_boundary
    first-IsTypedMarker = record {
      id_32 = id_32;
      generation_u64 = g_u64;
      replay_u64 = omega (arith, large);
      end_u64 = omega (arith, large);
      offset_u64 = omega arith;
      height_u32 = omega arith;
      hash_32 = refl;
      checksum_32 = refl;
    }

    first-IsConsistent : IsConsistent page_size (first_marker page_size journal_id g)
    unfolding empty_boundary
    first-IsConsistent = record {
      replay_in = omega arith;
      replay_aligned = mod_self page_size;
      replay_le_end = omega arith;
      end_aligned = mod_self page_size;
      last_in = inl (omega arith);
    }

  first-Follows :
      Follows (first_marker page_size journal_id 0) (first_marker page_size journal_id 1)
  first-Follows = record {
    same_journal = refl;
    later = refl;
    end_le = omega arith;
    replay_le = omega arith;
    same_record = λ _. refl;
  }

  fresh-Marked :
      Marked sha256 digest_32 c block files.1 page_size journal_id
        (first_marker page_size journal_id 1)
  unfolding initialize_journal initial_marker_file empty_boundary
  fresh-Marked =
      let zero_typed = first-IsTypedMarker 0 (omega arith) in
      let one_typed = first-IsTypedMarker 1 (omega arith) in
      let start = set_len empty_file (4096 * 2) in
      record {
        same_id = refl;
        marker_typed = one_typed;
        marker_consistent = first-IsConsistent 1 (omega arith);
        marker_held =
            read_exact_at-write_publication_marker sha256 digest_32
              (first_marker page_size journal_id 1) one_typed _;
        marker_read =
            read_publication_marker-written sha256 digest_32 (first_marker page_size journal_id 0)
              (first_marker page_size journal_id 1) page_size zero_typed
              (first-IsConsistent 0 (omega arith)) one_typed (first-IsConsistent 1 (omega arith))
              first-Follows
              (write_publication_marker sha256 start (first_marker page_size journal_id 0))
              (read_exact_at-write_publication_marker sha256 digest_32
                (first_marker page_size journal_id 0) zero_typed start);
      }

  -- The journal as `open` returns it for the initialized files.
  abbrev pub fresh : System H
  fresh = record {
    journal =
        opened sha256 c block files.0 files.1 true
          (page_size, journal_id, first_marker page_size journal_id 1, []);
    boundaries = [];
    prunes = [];
  }

  len-files : page_size ≤ files.0.len
  unfolding initialize_journal initial_file set_len
  len-files = omega (
    arith,
    len-write_inside (set_len empty_file page_size) 0 (superblock_bytes sha256 page_size journal_id)
        (omega (arith, length-superblock, small)),
  )

  pub fresh-IsSound : IsSound sha256 digest_32 c block fresh
  unfolding empty_boundary last_boundary
  fresh-IsSound = record {
    gone = [];
    kept = [];
    tail = [];
    mid = page_size;
    sound = record {
      in_memory = refl;
      laid = record {
        gone_chain = refl;
        kept_chain = refl;
        tail_chain = refl;
        file_end = len-files;
        superblock = read_superblock-initialize_journal;
        page_large = omega (arith, small);
        first_page = omega arith;
      };
      marked = fresh-Marked;
      published = refl;
      last_is = refl;
    };
    handed = tt;
    pending = tt;
  }
