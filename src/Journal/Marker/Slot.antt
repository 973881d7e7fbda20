-- ===== src/Journal/Marker/Slot.antt =====
-- src/forest_journal.rs: a marker that was written into its slot is read back from it.
use rpc_utreexo_bridge.Base.{
  ℕ, ◌*◌, ◌%◌, ◌^◌, ◌≤◌, ◌<◌, ◌≡◌, refl, ap, ◌∙◌, sym, true, false, some, List, [], ◌∷◌, ◌++◌,
  length, ok, arith, ◌⊎◌,
}
use rpc_utreexo_bridge.Bytes.{
  to_le_bytes, from_le_bytes, from_le_bytes-to_le_bytes, length-to_le_bytes, bytes_eq,
  bytes_eq_refl,
}
use rpc_utreexo_bridge.Bytes.Segments.{
  slice, concat, total, length-concat, slice-concat, take-concat,
}
use rpc_utreexo_bridge.File.{File, read_exact_at, read-write_self}
use rpc_utreexo_bridge.Journal.Marker.Defs.{
  PublicationMarker, publication_magic, publication_slot_size, marker_prefix,
  encode_publication_marker, write_publication_marker, slot_is_sealed, marker_of_bytes,
  marker_is_invalid, decode_slot, read_slot,
}

-- The ranges of a marker's fields, which the Rust types give.
pub record IsTypedMarker (m : PublicationMarker) : Type 0 where
  pub id_32 : length m.boundary.journal_id ≡ 32
  pub generation_u64 : m.generation < 256 ^ 8
  pub replay_u64 : m.replay_start < 256 ^ 8
  pub end_u64 : m.boundary.end < 256 ^ 8
  pub offset_u64 : m.boundary.offset < 256 ^ 8
  pub height_u32 : m.boundary.height < 256 ^ 4
  pub hash_32 : length m.boundary.block_hash ≡ 32
  pub checksum_32 : length m.boundary.checksum ≡ 32

-- What the consistency tests of the reader ask.
pub record IsConsistent (page_size : ℕ) (m : PublicationMarker) : Type 0 where
  pub replay_in : page_size ≤ m.replay_start
  pub replay_aligned : m.replay_start % page_size ≡ 0
  pub replay_le_end : m.replay_start ≤ m.boundary.end
  pub end_aligned : m.boundary.end % page_size ≡ 0
  pub last_in :
      (m.boundary.end ≤ page_size)
      ⊎ ((m.replay_start ≤ m.boundary.offset)
          × (m.boundary.offset < m.boundary.end)
          × (m.boundary.offset % page_size ≡ 0))

-- The epoch counts discards since the journal was opened; it is not written.
abbrev pub stored : PublicationMarker → PublicationMarker
stored m = record m { boundary = record m.boundary { epoch = 0 } }

module _ (sha256 : List ℕ → List ℕ) (digest_32 : (bs : List ℕ) → length (sha256 bs) ≡ 32) where
  module _ (m : PublicationMarker) (t : IsTypedMarker m) where
    seal : List ℕ
    seal = sha256 (concat (marker_prefix m))

    total-prefix : total (marker_prefix m) ≡ 140
    total-prefix = omega (
      arith,
      t.id_32,
      t.hash_32,
      t.checksum_32,
      length-to_le_bytes 8 m.generation,
      length-to_le_bytes 8 m.replay_start,
      length-to_le_bytes 8 m.boundary.end,
      length-to_le_bytes 8 m.boundary.offset,
      length-to_le_bytes 4 m.boundary.height,
    )

    length-seal : length seal ≡ 32
    unfolding seal
    length-seal = digest_32 (concat (marker_prefix m))

    pub length-encode : length (encode_publication_marker sha256 m) ≡ 172
    unfolding encode_publication_marker
    length-encode =
        length-concat (marker_prefix m ++ (sha256 (concat (marker_prefix m)) ∷ []))
        ∙ omega (arith, total-prefix, digest_32 (concat (marker_prefix m)))

    sealed : slot_is_sealed sha256 m.boundary.journal_id (encode_publication_marker sha256 m) ≡ true
    unfolding slot_is_sealed encode_publication_marker bytes_eq
    sealed = rw (
      slice-concat (publication_magic ∷ []) m.boundary.journal_id _ 8 32 refl t.id_32,
      take-concat (marker_prefix m) (sha256 (concat (marker_prefix m)) ∷ []) 140 total-prefix,
      slice-concat (marker_prefix m) (sha256 (concat (marker_prefix m))) [] 140 32 total-prefix
          (digest_32 _),
      bytes_eq_refl m.boundary.journal_id,
      bytes_eq_refl (sha256 (concat (marker_prefix m))),
    )

    u64_at :
        (pre : List (List ℕ)) (v : ℕ) (post : List (List ℕ)) (off : ℕ)
        → total pre ≡ off
        → v < 256 ^ 8
        → from_le_bytes (slice (concat (pre ++ (to_le_bytes 8 v ∷ post))) off 8) ≡ v
    u64_at pre v post off ho hv =
        ap from_le_bytes (slice-concat pre (to_le_bytes 8 v) post off 8 ho (length-to_le_bytes 8 v))
        ∙ from_le_bytes-to_le_bytes 8 v hv

    u32_at :
        (pre : List (List ℕ)) (v : ℕ) (post : List (List ℕ)) (off : ℕ)
        → total pre ≡ off
        → v < 256 ^ 4
        → from_le_bytes (slice (concat (pre ++ (to_le_bytes 4 v ∷ post))) off 4) ≡ v
    u32_at pre v post off ho hv =
        ap from_le_bytes (slice-concat pre (to_le_bytes 4 v) post off 4 ho (length-to_le_bytes 4 v))
        ∙ from_le_bytes-to_le_bytes 4 v hv

    -- The segments in front of each field.
    abbrev to_generation : List (List ℕ)
    to_generation = publication_magic ∷ m.boundary.journal_id ∷ []

    abbrev to_replay : List (List ℕ)
    to_replay = to_generation ++ (to_le_bytes 8 m.generation ∷ [])

    abbrev to_end : List (List ℕ)
    to_end = to_replay ++ (to_le_bytes 8 m.replay_start ∷ [])

    abbrev to_offset : List (List ℕ)
    to_offset = to_end ++ (to_le_bytes 8 m.boundary.end ∷ [])

    abbrev to_height : List (List ℕ)
    to_height = to_offset ++ (to_le_bytes 8 m.boundary.offset ∷ [])

    abbrev to_hash : List (List ℕ)
    to_hash = to_height ++ (to_le_bytes 4 m.boundary.height ∷ [])

    abbrev to_checksum : List (List ℕ)
    to_checksum = to_hash ++ (m.boundary.block_hash ∷ [])

    total-to_checksum :
        (total to_generation ≡ 40)
        × (total to_replay ≡ 48)
        × (total to_end ≡ 56)
        × (total to_offset ≡ 64)
        × (total to_height ≡ 72)
        × (total to_hash ≡ 76)
        × (total to_checksum ≡ 108)
    total-to_checksum = omega (
      arith,
      t.id_32,
      t.hash_32,
      length-to_le_bytes 8 m.generation,
      length-to_le_bytes 8 m.replay_start,
      length-to_le_bytes 8 m.boundary.end,
      length-to_le_bytes 8 m.boundary.offset,
      length-to_le_bytes 4 m.boundary.height,
    )

    decoded : marker_of_bytes m.boundary.journal_id (encode_publication_marker sha256 m) ≡ stored m
    unfolding marker_of_bytes encode_publication_marker
    decoded = cc (
      u64_at to_generation m.generation _ 40 total-to_checksum.0 t.generation_u64,
      u64_at to_replay m.replay_start _ 48 total-to_checksum.1 t.replay_u64,
      u64_at to_end m.boundary.end _ 56 total-to_checksum.2 t.end_u64,
      u64_at to_offset m.boundary.offset _ 64 total-to_checksum.3 t.offset_u64,
      u32_at to_height m.boundary.height _ 72 total-to_checksum.4 t.height_u32,
      slice-concat to_hash m.boundary.block_hash _ 76 32 total-to_checksum.5 t.hash_32,
      slice-concat to_checksum m.boundary.checksum _ 108 32 total-to_checksum.6 t.checksum_32,
    )

    module _ (page_size : ℕ) (c : IsConsistent page_size m) where
      accepted : marker_is_invalid page_size (m.generation % 2) (stored m) ≡ false
      unfolding marker_is_invalid
      accepted = ground arith

      pub decode-encode_marker :
          decode_slot sha256 m.boundary.journal_id page_size
            (m.generation % 2)
            (encode_publication_marker sha256 m)
          ≡ ok (some (stored m))
      unfolding decode_slot
      decode-encode_marker = rw (sealed, decoded, accepted)

    -- The slot of a marker that lies in the file reads as that marker.
    pub read_slot-held :
        (page_size : ℕ) (file : File)
        → IsConsistent page_size m
        → read_exact_at file (m.generation % 2 * publication_slot_size) 172
          ≡ some (encode_publication_marker sha256 m)
        → read_slot sha256 m.boundary.journal_id page_size (m.generation % 2) file
          ≡ ok (some (stored m))
    unfolding read_slot
    read_slot-held page_size file c h = rw (h, read_slot) (decode-encode_marker page_size c)

    -- So does the slot after the marker was written into it.
    pub read_exact_at-write_publication_marker :
        (file : File)
        → read_exact_at
            (write_publication_marker sha256 file m)
            (m.generation % 2 * publication_slot_size)
            172
          ≡ some (encode_publication_marker sha256 m)
    unfolding write_publication_marker
    read_exact_at-write_publication_marker file =
        ap
          (read_exact_at (write_publication_marker sha256 file m)
            (m.generation % 2 * publication_slot_size))
          (sym length-encode)
        ∙ read-write_self file (m.generation % 2 * publication_slot_size)
            (encode_publication_marker sha256 m)
