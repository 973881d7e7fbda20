-- ===== src/Examples/Headers.antt =====
-- src/node.rs: a getheaders request to a server with a node of three blocks. Its chain view keeps
-- nothing, so that every header is asked of the node.
use rpc_utreexo_bridge.Base.{
  ℕ, suc, ◌-◌, ◌≤◌, ◌≡◌, refl, subst, none, some, List, [], ◌∷◌, length, ok, arith,
}
use rpc_utreexo_bridge.Bytes.{to_be_bytes, from_be_bytes, bytes_eq}
use rpc_utreexo_bridge.ChainView.{
  Store, get_block, get_block_hash, get_height, save_block_hash, save_header, save_height,
}
use rpc_utreexo_bridge.Node.Wire.Messages.{GetHeadersMessage, max_locator_hashes}
use rpc_utreexo_bridge.Node.Headers.{
  Blockchain, Context, pure, ◌>>=◌, ok_or_next, all_zeros, save_locator, ask_source,
  active_locator_height, fetch_header, header_at_height, collect_headers, end_height, headers_after,
  answer, headers_for_request, IsNode, IsView, IsTruthful, IfSome, IsHeight, IsHashAt, HasHash,
  IsServed, headers_for_request-Served,
}

-- A header is its hash here.
abbrev hash_at : ℕ → List ℕ
hash_at height = to_be_bytes 32 (suc height)

-- The node gives a height for any hash.
abbrev three_blocks : Blockchain (Unit {0}) (Unit {0}) (List ℕ)
three_blocks = record {
  block_count = λ w. (w, ok 2);
  block_hash_at = λ height w. (w, ok (hash_at height));
  block_height = λ hash w. (w, ok (from_be_bytes hash - 1));
  block_header = λ hash w. (w, ok hash);
}

abbrev empty_view : Store (Unit {0}) (Unit {0})
empty_view = record { get = λ b k s. ok none; set = λ b k v s. (s, ok tt) }

abbrev server : Context (Unit {0}) (Unit {0}) (List ℕ)
server = record {
  chainview = empty_view;
  header_index = none;
  header_source = some three_blocks;
  block_hash = λ header. header;
  serialize = λ header. header;
  deserialize = λ bytes. some bytes;
}

abbrev AnyState : Unit {0} → Type 0
AnyState w = Unit {0}

three_blocks-IsNode : IsNode server AnyState hash_at three_blocks
three_blocks-IsNode = record {
  counts = λ w p. (tt, λ a h. tt);
  hashes = λ height w p. (tt, λ a h. cc h);
  heights = λ hash w p. (tt, λ a h. tt);
  headers = λ hash w p. (tt, λ a h. cc h);
}

server-IsView : IsView server AnyState hash_at
unfolding get_height get_block_hash get_block save_height save_block_hash save_header
server-IsView = record {
  view_heights = λ hash w p a h.
      subst (IfSome server AnyState hash_at (IsHeight server AnyState hash_at hash)) {x = none}
        (cc h) tt;
  view_hashes = λ height w p a h.
      subst (IfSome server AnyState hash_at (IsHashAt server AnyState hash_at height)) {x = none}
        (cc h) tt;
  view_headers = λ hash w p a h.
      subst
        (IfSome server AnyState hash_at (λ (b : List ℕ).
          (header : List ℕ)
          → server.deserialize b ≡ some header
          → HasHash server AnyState hash_at hash header))
        {x = none} {y = a} (cc h) tt;
  saves_height = λ hash height e w p. tt;
  saves_hash = λ height hash e w p. tt;
  saves_header = λ hash header e w p. tt;
}

server-IsTruthful : IsTruthful server AnyState hash_at
server-IsTruthful = record { index = tt; node = three_blocks-IsNode; view = server-IsView }

abbrev a_request : GetHeadersMessage
a_request = record { version = 70016; locator_hashes = hash_at 0 ∷ []; stop_hash = all_zeros }

headers_for_request_run :
    headers_for_request server 2 a_request tt ≡ (tt, ok (hash_at 1 ∷ hash_at 2 ∷ []))
unfolding headers_for_request answer headers_after active_locator_height end_height collect_headers
    header_at_height fetch_header ask_source save_locator pure ◌>>=◌ ok_or_next get_block
    get_block_hash get_height save_block_hash save_header save_height to_be_bytes from_be_bytes
    bytes_eq
headers_for_request_run = refl

headers_for_request-Served_example :
    (length a_request.locator_hashes ≤ max_locator_hashes)
    × IsServed server AnyState hash_at 2 (hash_at 0 ∷ []) all_zeros (hash_at 1 ∷ hash_at 2 ∷ [])
headers_for_request-Served_example =
    headers_for_request-Served server AnyState hash_at 2 server-IsTruthful (omega arith) a_request
      tt tt (hash_at 1 ∷ hash_at 2 ∷ []) tt headers_for_request_run
