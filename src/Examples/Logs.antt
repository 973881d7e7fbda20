-- ===== src/Examples/Logs.antt =====
-- src/forest_journal.rs: a journal that is initialized, appended to and published. A header is the
-- hash of its block here, and every block has the same predecessor.
use rpc_utreexo_bridge.Base.{
  ℕ, ◌+◌, ◌%◌, ◌≤◌, ◌<◌, ◌≡◌, refl, true, false, some, List, length, ok, inl, inr, ◌⊎◌, arith,
  Result, checked_add, ◌∙◌,
}
use rpc_utreexo_bridge.Bytes.{IsBytes, bytes_eq, to_le_bytes}
use rpc_utreexo_bridge.File.{File, done, empty_file, read_bytes, SameOn}
use rpc_utreexo_bridge.Udata.Codec.{encode_compact_proof, each, encode_leaf, encode_script_type}
use rpc_utreexo_bridge.Journal.Entry.Encode.{
  encode_entry, encode_entry_into, push_len, encode_fixed, encode_each, encode_forest_delta,
  encode_state, state_flags, encode_index_delta, push_rows,
}
use rpc_utreexo_bridge.Journal.Record.Types.{
  BlockHeader, JournalReplayPayload, JournalRecord, record_boundary, last_boundary, empty_boundary,
}
use rpc_utreexo_bridge.Journal.Record.Payload.{header_matches, encode_payload}
use rpc_utreexo_bridge.Journal.Record.Disk.{
  align_up, plan_record, WriteOutcome, write_record, read_record, read_chunks, scan_records,
  validate_boundary,
}
use rpc_utreexo_bridge.Journal.Record.Boundary.{read_chunks_whole}
use rpc_utreexo_bridge.Journal.Record.RoundTrip.{IsAppendable}
use rpc_utreexo_bridge.Journal.Record.ReadBack.{read_record-write_record}
use rpc_utreexo_bridge.Journal.Record.Plan.{align_up-eq-some}
use rpc_utreexo_bridge.Journal.Record.Stored.{Spares}
use rpc_utreexo_bridge.Journal.Marker.Defs.{JournalBoundary}
use rpc_utreexo_bridge.Journal.Log.State.{ForestJournal, LogError, boundary}
use rpc_utreexo_bridge.Journal.Log.Operations.{append_payload, append_block, publish}
use rpc_utreexo_bridge.Journal.Log.Open.{is_power_of_two, read_superblock, open_journal}
use rpc_utreexo_bridge.Journal.Log.Initialize.{initialize_journal}
use rpc_utreexo_bridge.Journal.Log.Fresh.{read_superblock-initialize_journal, fresh, fresh-IsSound}
use rpc_utreexo_bridge.Journal.Log.Sound.{System, IsSound, ordered}
use rpc_utreexo_bridge.Journal.Log.AppendBlock.{after_append, IsTypedBlock, append_block-IsSound}
use rpc_utreexo_bridge.Journal.Log.Reopen.{Reopens, open_journal-Reopens}
use rpc_utreexo_bridge.Journal.Log.Reachable.{Reachable}
use rpc_utreexo_bridge.Journal.Log.Append.{boundary-IsCurrent}
use rpc_utreexo_bridge.Journal.Log.Chain.{scan_records-Chain}
use rpc_utreexo_bridge.Journal.Log.Progress.{Publishes, publish-Publishes}
use rpc_utreexo_bridge.Examples.Toy.{
  toy, toy-Laws, number_codec, script_bytes_codec, hash_codec, hash-IsLawful,
}
use rpc_utreexo_bridge.Examples.Journals.{
  hash_of, hash-IsBytes, entry, entry-IsTyped, entry-Fits, digest, digest_32,
}
use rpc_utreexo_bridge.Examples.Stores.{block, block-IsServable}

abbrev toy_header : BlockHeader (List ℕ)
toy_header = record { codec = hash_codec; block_hash = λ h. h; prev_blockhash = λ _. hash_of 2 }

abbrev replay : JournalReplayPayload (List ℕ)
replay = record { header = hash_of 1; proof = block; proof_forest_rows = 12 }

entry-matches : header_matches toy toy_header (hash_of 1) entry ≡ true
unfolding header_matches bytes_eq
entry-matches = refl

entry-IsAppendable :
    IsAppendable digest toy toy-Laws toy_header 4096 (IsBytes 32) hash-IsLawful entry replay
entry-IsAppendable = record {
  typed = entry-IsTyped;
  fits = entry-Fits;
  rows = 12;
  has_rows = refl;
  proof_rows = omega arith;
  matches = entry-matches;
  header_valid = hash-IsBytes 1 (omega arith);
  servable = block-IsServable;
}

unfoldable payload : (bytes : List ℕ) × (encode_payload toy toy_header entry replay ≡ ok bytes)
unfolding encode_payload encode_entry encode_entry_into push_len push_rows encode_each
    encode_index_delta encode_forest_delta encode_fixed encode_state state_flags to_le_bytes
    encode_compact_proof each encode_leaf encode_script_type toy number_codec hash_codec
    script_bytes_codec
payload = (_, refl)

abbrev all_done : WriteOutcome
all_done = record { resize = done; header = done; payload = done; trailer = done }

first_write :
    (file : File) × (r : JournalRecord (List ℕ)) × (write_record digest toy toy_header all_done
        empty_file 4096 0 entry
        (some replay)
        payload.0
        3
      ≡ (file, ok r))
unfolding write_record plan_record align_up checked_add payload
first_write = (_, _, refl)

abbrev first_record : JournalRecord (List ℕ)
first_record = first_write.1

read_record-write_record_example :
    (first_record.entry ≡ entry)
    × (first_record.replay ≡ some replay)
    × (read_record digest toy toy_header first_write.0 4096 first_record.offset
          (first_record.offset + first_record.span)
        ≡ ok first_record)
    × (validate_boundary digest first_write.0 4096 (record_boundary first_record (hash_of 9) 0)
        ≡ ok tt)
    × SameOn empty_file.byte_at first_write.0.byte_at 0 0
read_record-write_record_example =
    read_record-write_record digest digest_32 toy toy-Laws toy_header 4096 (IsBytes 32)
      hash-IsLawful all_done empty_file first_write.0 0 (first_record.offset + first_record.span)
      entry replay payload.0 first_record (hash_of 9) 0 entry-IsAppendable payload.1 (omega arith)
      first_write.2 (omega arith)

-- More than one chunk.
abbrev long_file : File
long_file = record { len = 70000; byte_at = λ i. i % 256 }

read_chunks_whole_example :
    read_chunks 70000 long_file 0 70000 ≡ ok (read_bytes long_file.byte_at 0 70000)
read_chunks_whole_example = read_chunks_whole 70000 long_file 0 70000 (omega arith) (omega arith)

one_page : align_up 100 4096 ≡ some 4096
unfolding align_up checked_add
one_page = refl

align_up-eq-some_example : (0 < 4096) × (100 ≤ 4096) × (4096 < 100 + 4096) × (4096 % 4096 ≡ 0)
align_up-eq-some_example = align_up-eq-some 100 4096 one_page

page_power : is_power_of_two 4096 ≡ true
unfolding is_power_of_two
page_power = refl

id_32 : length (hash_of 9) ≡ 32
id_32 = refl

read_superblock-initialize_journal_example :
    read_superblock digest (initialize_journal digest 4096 (hash_of 9)).0 ≡ ok (4096, hash_of 9)
read_superblock-initialize_journal_example =
    read_superblock-initialize_journal digest digest_32 toy toy_header 4096 (hash_of 9)
      (omega arith) (omega arith) page_power id_32

-- The initialized journal.
abbrev started : System (List ℕ)
started =
    fresh digest digest_32 toy toy_header 4096 (hash_of 9) (omega arith) (omega arith) page_power
      id_32

started-IsSound : IsSound digest digest_32 toy toy_header started
started-IsSound =
    fresh-IsSound digest digest_32 toy toy_header 4096 (hash_of 9) (omega arith) (omega arith)
      page_power id_32

entry-IsTypedBlock :
    IsTypedBlock digest digest_32 toy toy-Laws toy_header (IsBytes 32) hash-IsLawful entry replay
entry-IsTypedBlock = record {
  typed = entry-IsTyped;
  fits = entry-Fits;
  header_valid = hash-IsBytes 1 (omega arith);
  servable = block-IsServable;
}

all_done-Spares : (file : File) (offset : ℕ) → Spares file offset all_done
all_done-Spares file offset = record {
  resize_spares = tt;
  header_spares = tt;
  payload_spares = tt;
  trailer_spares = tt;
}

-- One block is appended.
abbrev answer : ForestJournal (List ℕ) × Result LogError JournalBoundary
answer = append_block digest toy toy_header all_done done started.journal entry replay

abbrev grown : System (List ℕ)
grown = after_append started answer

grown-live : grown.journal.poisoned ≡ false
unfolding append_block append_payload write_record plan_record align_up checked_add header_matches
    bytes_eq encode_payload encode_entry encode_entry_into push_len push_rows encode_each
    encode_index_delta encode_forest_delta encode_fixed encode_state state_flags to_le_bytes
    encode_compact_proof each encode_leaf encode_script_type toy number_codec hash_codec
    script_bytes_codec empty_boundary
grown-live = refl

grown-IsSound : IsSound digest digest_32 toy toy_header grown
grown-IsSound = elim stays [ inl dead ↦ cc (dead, grown-live) | inr sound ↦ sound ]
  where
    stays : (grown.journal.poisoned ≡ true) ⊎ IsSound digest digest_32 toy toy_header grown
    stays =
        append_block-IsSound digest digest_32 toy toy-Laws toy_header (IsBytes 32) hash-IsLawful
          started all_done done entry replay started-IsSound refl
          (all_done-Spares started.journal.file started.journal.appended_end) entry-IsTypedBlock

grown-published : grown.journal.marker.boundary.end ≤ grown.journal.file.len
grown-published = omega (
  arith,
  (ordered digest digest_32 toy toy_header grown-IsSound.sound.laid).3,
  grown-IsSound.sound.laid.file_end,
)

abbrev handed : JournalBoundary
handed = boundary grown.journal

grown-facts :
    (handed.epoch ≡ grown.journal.epoch)
    × (grown.journal.marker.boundary.end ≡ 4096)
    × (handed.end ≡ 8192)
    × (grown.journal.marker.generation ≡ 1)
unfolding append_block append_payload write_record plan_record align_up checked_add header_matches
    bytes_eq encode_payload encode_entry encode_entry_into push_len push_rows encode_each
    encode_index_delta encode_forest_delta encode_fixed encode_state state_flags to_le_bytes
    encode_compact_proof each encode_leaf encode_script_type toy number_codec hash_codec
    script_bytes_codec empty_boundary boundary last_boundary record_boundary
grown-facts = (refl, refl, refl, refl)

publish-Publishes_example :
    Publishes digest digest_32 toy toy_header grown grown-IsSound handed
      (publish digest true done true grown.journal handed)
publish-Publishes_example =
    publish-Publishes digest digest_32 toy toy_header grown grown-IsSound handed grown-live
      (boundary-IsCurrent digest digest_32 toy toy_header grown.journal grown-IsSound.gone
        grown-IsSound.kept grown-IsSound.tail grown-IsSound.mid grown-IsSound.sound)
      grown-facts.0 (omega (arith, grown-facts.1, grown-facts.2)) (omega (arith, grown-facts.3))

scan_records-Chain_example :
    scan_records digest toy toy_header grown.journal.appended_end grown.journal.file
      grown.journal.page_size grown.journal.marker.boundary.end grown.journal.appended_end
    ≡ ok grown-IsSound.tail
scan_records-Chain_example =
    scan_records-Chain digest toy toy_header grown.journal.page_size grown.journal.appended_end
      grown.journal.file grown.journal.marker.boundary.end grown.journal.appended_end
      grown-IsSound.tail grown-IsSound.sound.laid.tail_chain (omega arith)

open_journal-Reopens_example :
    ((j' : ForestJournal (List ℕ)) × (open_journal digest toy toy_header done true
          grown.journal.file grown.journal.marker_file
        ≡ ok j'))
    × ((j' : ForestJournal (List ℕ))
        → open_journal digest toy toy_header done true grown.journal.file grown.journal.marker_file
          ≡ ok j'
        → Reopens digest digest_32 toy toy_header grown grown-IsSound true j')
open_journal-Reopens_example =
    open_journal-Reopens digest digest_32 toy toy_header grown grown-IsSound done true
      grown.journal.file (λ i p q. refl) grown-published

-- The block is published: the publication is a step, and its result has one published record.
abbrev published : System (List ℕ)
published = record grown { journal = (publish digest true done true grown.journal handed).0 }

published-Publishes :
    Publishes digest digest_32 toy toy_header grown grown-IsSound handed
      (publish digest true done true grown.journal handed)
published-Publishes =
    publish-Publishes digest digest_32 toy toy_header grown grown-IsSound handed grown-live
      (boundary-IsCurrent digest digest_32 toy toy_header grown.journal grown-IsSound.gone
        grown-IsSound.kept grown-IsSound.tail grown-IsSound.mid grown-IsSound.sound)
      grown-facts.0 (omega (arith, grown-facts.1, grown-facts.2)) (omega (arith, grown-facts.3))

published-end : published.journal.published_end ≡ 8192
published-end = published-Publishes.end_moved ∙ grown-facts.2
