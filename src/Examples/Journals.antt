-- ===== src/Examples/Journals.antt =====
-- src/forest_journal.rs: an entry with all its vectors in use, and two markers in turn.
use rpc_utreexo_bridge.Base.{
  ℕ, ◌%◌, ◌<◌, ◌≡◌, refl, true, false, subst, ◌⊎◌, some, List, [], ◌∷◌, replicate, length,
  length-replicate, take, ok, err, inr, ltb, ◌&&◌, Bool, Result, All, arith, inl,
}
use rpc_utreexo_bridge.Bytes.{
  replicate-IsByte, IsBytes, IsByte, to_le_bytes, from_le_bytes, bytes_eq,
}
use rpc_utreexo_bridge.Bytes.Segments.{slice}
use rpc_utreexo_bridge.File.{File, write_all_at, read_exact_at, read_bytes}
use rpc_utreexo_bridge.Journal.Entry.Types.{
  JournalEntry, JournalNodeState, IsTyped, Fits, EntryError,
}
use rpc_utreexo_bridge.Journal.Entry.Encode.{
  encode_entry, encode_entry_into, push_len, encode_fixed, encode_each, encode_forest_delta,
  encode_state, state_flags, encode_index_delta, push_rows,
}
use rpc_utreexo_bridge.Journal.Entry.Decode.{decode_entry}
use rpc_utreexo_bridge.Journal.Entry.RoundTrip.{decode_entry-encode_entry}
use rpc_utreexo_bridge.Journal.Entry.Canonical.{encode_entry-decode_entry}
use rpc_utreexo_bridge.Journal.Marker.Defs.{
  PublicationMarker, encode_publication_marker, write_publication_marker, read_publication_marker,
  read_slot, decode_slot, slot_is_sealed, choose, marker_of_bytes, marker_is_invalid,
}
use rpc_utreexo_bridge.Journal.Marker.Slot.{
  IsTypedMarker, IsConsistent, read_exact_at-write_publication_marker,
}
use rpc_utreexo_bridge.Journal.Marker.Recovery.{
  Follows, Holds, Tells, read_publication_marker-written, read_publication_marker_torn,
}

abbrev pub hash_of : ℕ → List ℕ
hash_of b = replicate 32 b

pub hash-IsBytes : (b : ℕ) → b < 256 → IsBytes 32 (hash_of b)
hash-IsBytes b h = (length-replicate 32 b, replicate-IsByte 32 b h)

abbrev state : JournalNodeState
state = record { ready = true; spent = false; hash = hash_of 7 }

abbrev pub entry : JournalEntry
entry = record {
  height = 9;
  block_hash = hash_of 1;
  num_leaves = 300;
  previous_block_hash = hash_of 2;
  forest = record { position = 5; before = state; after = record state { spent = true } } ∷ [];
  removed = record { outpoint = record { txid = hash_of 3; vout = 1 }; position = 4 } ∷ [];
  added = record { outpoint = record { txid = hash_of 4; vout = 0 }; position = 299 } ∷ [];
  forest_rows = some 12;
}

pub entry-IsTyped : IsTyped entry
entry-IsTyped = record {
  height_u32 = omega arith;
  block_hash_32 = hash-IsBytes 1 (omega arith);
  num_leaves_u64 = omega arith;
  previous_32 = hash-IsBytes 2 (omega arith);
  forest_typed = ((omega arith, hash-IsBytes 7 (omega arith), hash-IsBytes 7 (omega arith)), tt);
  removed_typed = ((hash-IsBytes 3 (omega arith), omega arith, omega arith), tt);
  added_typed = ((hash-IsBytes 4 (omega arith), omega arith, omega arith), tt);
}

pub entry-Fits : Fits entry
entry-Fits = record {
  forest_fits = omega arith;
  removed_fits = omega arith;
  added_fits = omega arith;
  rows_fit = omega arith;
}

decode_entry-encode_entry_example :
    (bytes : List ℕ) × (encode_entry entry ≡ ok bytes) × (decode_entry bytes ≡ ok entry)
decode_entry-encode_entry_example = decode_entry-encode_entry entry entry-IsTyped entry-Fits

-- The bytes of `entry`, evaluated.
unfoldable bytes_or : Result EntryError (List ℕ) → List ℕ
bytes_or (ok bytes) = bytes
bytes_or (err e) = []

unfoldable are_bytes : List ℕ → Bool
are_bytes [] = true
are_bytes (b ∷ bs) = ltb b 256 && are_bytes bs

are_bytes→All : (bs : List ℕ) → are_bytes bs ≡ true → All IsByte bs
unfolding are_bytes
are_bytes→All [] h = tt
are_bytes→All (b ∷ bs) h = (ground arith, are_bytes→All bs (ground arith))

entry_bytes-fit : are_bytes (bytes_or (encode_entry entry)) ≡ true
unfolding are_bytes bytes_or encode_entry encode_entry_into push_len encode_fixed encode_each
    encode_forest_delta encode_state state_flags encode_index_delta push_rows to_le_bytes
entry_bytes-fit = refl

entry_bytes-decode : decode_entry (bytes_or (encode_entry entry)) ≡ ok entry
unfolding bytes_or
entry_bytes-decode =
    let (bytes, written, back) = decode_entry-encode_entry entry entry-IsTyped entry-Fits in
    rw written back

encode_entry-decode_entry_example :
    IsTyped entry × Fits entry × (encode_entry entry ≡ ok (bytes_or (encode_entry entry)))
encode_entry-decode_entry_example =
    encode_entry-decode_entry (bytes_or (encode_entry entry)) entry
      (are_bytes→All (bytes_or (encode_entry entry)) entry_bytes-fit) entry_bytes-decode

abbrev pub digest : List ℕ → List ℕ
digest bs = replicate 32 (length bs % 256)

pub digest_32 : (bs : List ℕ) → length (digest bs) ≡ 32
digest_32 bs = length-replicate 32 (length bs % 256)

abbrev first : PublicationMarker
first = record {
  generation = 0;
  replay_start = 4096;
  boundary = record {
    journal_id = hash_of 9;
    epoch = 0;
    end = 4096;
    offset = 0;
    height = 0;
    block_hash = hash_of 0;
    checksum = hash_of 0;
  };
}

abbrev second : PublicationMarker
second = record {
  generation = 1;
  replay_start = 4096;
  boundary = record {
    journal_id = hash_of 9;
    epoch = 0;
    end = 8192;
    offset = 4096;
    height = 1;
    block_hash = hash_of 1;
    checksum = hash_of 2;
  };
}

first-IsTypedMarker : IsTypedMarker first
first-IsTypedMarker = record {
  id_32 = refl;
  generation_u64 = omega arith;
  replay_u64 = omega arith;
  end_u64 = omega arith;
  offset_u64 = omega arith;
  height_u32 = omega arith;
  hash_32 = refl;
  checksum_32 = refl;
}

second-IsTypedMarker : IsTypedMarker second
second-IsTypedMarker = record {
  id_32 = refl;
  generation_u64 = omega arith;
  replay_u64 = omega arith;
  end_u64 = omega arith;
  offset_u64 = omega arith;
  height_u32 = omega arith;
  hash_32 = refl;
  checksum_32 = refl;
}

first-IsConsistent : IsConsistent 4096 first
first-IsConsistent = record {
  replay_in = omega arith;
  replay_aligned = refl;
  replay_le_end = omega arith;
  end_aligned = refl;
  last_in = inl (omega arith);
}

second-IsConsistent : IsConsistent 4096 second
second-IsConsistent = record {
  replay_in = omega arith;
  replay_aligned = refl;
  replay_le_end = omega arith;
  end_aligned = refl;
  last_in = inr (omega arith, omega arith, refl);
}

first-Follows-second : Follows first second
first-Follows-second = record {
  same_journal = refl;
  later = refl;
  end_le = omega arith;
  replay_le = omega arith;
  same_record = λ h. absurd (omega arith);
}

abbrev two_slots : File
two_slots = record { len = 8192; byte_at = λ _. 0 }

abbrev marker_file : File
marker_file = write_publication_marker digest two_slots first

marker_file-Holds : Holds digest digest_32 marker_file first
marker_file-Holds =
    read_exact_at-write_publication_marker digest digest_32 first first-IsTypedMarker two_slots

read_publication_marker-written_example :
    read_publication_marker digest
      (write_publication_marker digest marker_file second)
      (hash_of 9)
      4096
    ≡ ok second
read_publication_marker-written_example =
    read_publication_marker-written digest digest_32 first second 4096 first-IsTypedMarker
      first-IsConsistent second-IsTypedMarker second-IsConsistent first-Follows-second marker_file
      marker_file-Holds

-- The write of the second marker stopped after 100 bytes.
abbrev torn_file : File
torn_file = write_all_at marker_file 4096 (take 100 (encode_publication_marker digest second))

marker_file-first : read_publication_marker digest marker_file (hash_of 9) 4096 ≡ ok first
unfolding read_publication_marker read_slot read_exact_at write_all_at write_publication_marker
    encode_publication_marker to_le_bytes from_le_bytes decode_slot slot_is_sealed choose
    marker_of_bytes marker_is_invalid bytes_eq
marker_file-first = refl

abbrev torn_bytes : List ℕ
torn_bytes = read_bytes torn_file.byte_at 4096 172

torn_bytes-broken : bytes_eq (digest (take 140 torn_bytes)) (slice torn_bytes 140 32) ≡ false
unfolding read_bytes write_all_at write_publication_marker encode_publication_marker to_le_bytes
    bytes_eq
torn_bytes-broken = refl

torn_file-read : read_exact_at torn_file 4096 172 ≡ some torn_bytes
unfolding read_exact_at write_all_at write_publication_marker encode_publication_marker to_le_bytes
torn_file-read = refl

-- The digest of the bytes does not fit.
torn_file-Tells :
    Tells digest digest_32 first second 4096 first-IsTypedMarker first-IsConsistent
      second-IsTypedMarker second-IsConsistent first-Follows-second marker_file torn_file
torn_file-Tells bytes e fits =
    let same : torn_bytes ≡ bytes = cc (torn_file-read, e) in
    cc (
      fits,
      subst (λ (bs : List ℕ). bytes_eq (digest (take 140 bs)) (slice bs 140 32) ≡ false) same
          torn_bytes-broken,
    )

read_publication_marker_torn_example :
    (read_publication_marker digest torn_file (hash_of 9) 4096 ≡ ok first)
    ⊎ (read_publication_marker digest torn_file (hash_of 9) 4096 ≡ ok second)
read_publication_marker_torn_example =
    read_publication_marker_torn digest digest_32 first second 4096 first-IsTypedMarker
      first-IsConsistent second-IsTypedMarker second-IsConsistent first-Follows-second marker_file
      100 marker_file-Holds marker_file-first torn_file-Tells
