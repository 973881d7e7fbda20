-- ===== src/Lib.antt =====
-- Verification of rpc-utreexo-bridge, a server that computes utreexo proofs for the blocks of a
-- Bitcoin node, stores them, and serves them to peers.
--
-- The program's parts and their models. The prover applies each block to the forest and writes what
-- changed as a journal entry; a publication marker says how far the journal may be replayed.
--   Journal.Entry     src/forest_journal.rs, encode_entry and decode_entry
--   Journal.Marker    src/forest_journal.rs, write_publication_marker and read_publication_marker
--   Journal.Record    src/forest_journal.rs, write_record, read_record, validate_boundary
--   Journal.Log       src/forest_journal.rs, ForestJournal, JournalPublisher and JournalPrune as one
--                     state (State), their operations (Operations), open (Open), initialize_journal
--                     (Initialize), the invariant (Sound), the steps (Reachable, Recovered)
-- The proof of a block is encoded compactly and appended to a file; the index keeps where.
--   Udata             src/udata.rs, the types and their consensus encodings
--   Store.Index       src/block_index.rs, BlockIndex and its stored form
--   Store.Proofs      src/blockfile.rs, ProofFile (Store.Laws and Store.Truncate prove)
-- The server admits peers and limits their packets.
--   Node.Address      src/node.rs, NetworkPrefix
--   Node.Registry     src/node.rs, PeerRegistry
--   Node.RateLimiter  src/node.rs, MessageRateLimiter
--   Node.Wire         src/node.rs, GetUtreexoProof, UtreexoProof and V2Codec::decode
--   Node.Headers      src/node.rs, headers_for_request; Yields, OnChain and Served relate its
--                     answer to the active chain
--   ChainView         src/chainview.rs, the methods of ChainView
-- A hints file for syncing clients has the leaf count of each block in front.
--   Hints             src/prefixed_hints.rs, BridgeHints; write_leaf_count_prefix in Hints.Write
-- Base, Bytes, File and Reader are shared helpers: tests on numbers, lists, results, hash maps as
-- association lists, integers as bytes, files as a length with a byte at each offset, and readers
-- of a byte string. Consensus is what the bitcoin crate offers. Examples applies the theorems at
-- concrete inputs.
--
-- Conventions. Machine integers are natural numbers, with the wrap-around or the range written out;
-- hashes and addresses are lists of bytes. A method with a mutable receiver returns the new state
-- with its result. Error values keep which check failed, not the text. SHA-256, the codecs of the
-- bitcoin crate, deserialize, the key-value store, the node behind the RPC and the order in which a
-- hash map is iterated are parameters, with their documented behaviour, where a theorem needs it, as
-- hypotheses (Consensus.Laws, ChainView.IsStore, IsIteration, Hints.Write.IsWriter,
-- Node.Headers.OnChain.IsTruthful, and the vectors of WireConsensus). The decoders of Vec and
-- Box<[u8]> of the bitcoin crate stop at MAX_VEC_SIZE, so that their laws are for values that encode
-- within 4,000,000 bytes, the count in front included.
--
-- Files and stops. A call that changes a file has an outcome: done, or failed with what it left. A
-- failed call of a step leaves what lies below the end of the journal, or outside the range of a
-- deallocation. A restart may find any file that agrees with the journal's below the published
-- end. The operations of the journal are atomic steps; the publisher's lock and the append-only
-- use of the file stand for that. A stop inside the write of a marker is what
-- read_publication_marker_torn is about.
--
-- Fuel. The loop of allocate_peer_id runs on one turn more than there are peers; allocate_peer_id
-- is shown to end within it. The scan of a journal runs on as many turns as the published end has
-- bytes, the digest of a record on as many as its payload has; every record and every chunk takes a
-- byte. The chunks of a hints prefix are cut on as many turns as there are counts. All other loops
-- are structural recursion.
--
-- Not modelled: threads, sockets and ciphers, the RPC and HTTP clients, V2Codec::encode of the
-- messages of the bitcoin crate, the inside of the key-value store, the forest itself and the
-- prover's windows, the inside of the header index, the import of legacy journal records, the
-- binding of their forest rows, the clean-shutdown file, and failures of memory allocation.
pub mod Base
pub mod Bytes
pub mod ChainView
pub mod File
pub mod Reader
pub mod Node
pub mod Hints
pub mod Consensus
pub mod Udata
pub mod Store
pub mod Journal
pub mod Examples
