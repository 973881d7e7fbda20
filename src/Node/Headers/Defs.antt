-- ===== src/Node/Headers/Defs.antt =====
-- src/node.rs: headers_for_request, active_locator_height and header_at_height. What the calls
-- change, which are the header index, the chain view and the node behind the RPC, is one state `W`.
use rpc_utreexo_bridge.Base.{
  ℕ, zero, suc, ◌+◌, ◌-◌, ◌^◌, Bool, not, ◌&&◌, Option, none, some, List, [], ◌∷◌, length, leb,
  if◌then◌else◌, Result, ok, err, replicate,
}
use rpc_utreexo_bridge.Bytes.{bytes_eq}
use rpc_utreexo_bridge.ChainView.{
  ViewError, Store, get_block, get_block_hash, get_height, save_block_hash, save_header,
  save_height,
}
use rpc_utreexo_bridge.Node.Wire.Messages.{GetHeadersMessage, max_locator_hashes}

abbrev pub u32_max : ℕ
u32_max = 2 ^ 32 - 1

abbrev pub max_headers : ℕ
max_headers = 2000

abbrev pub least : ℕ → ℕ → ℕ
least a b = if leb a b then a else b

-- `a.saturating_add(b)` on a u32.
abbrev pub saturating_add : ℕ → ℕ → ℕ
saturating_add a b = least (a + b) u32_max

-- `BlockHash::all_zeros()`
abbrev pub all_zeros : List ℕ
all_zeros = replicate 32 0

-- `PeerError`: the errors of this handler, whose calls fail with an `E`.
pub data HeadersError (E : Type 0) : Type 0 where
  too_many_locator_hashes : ℕ → HeadersError E
  view_failed : ViewError E → HeadersError E
  call_failed : E → HeadersError E
  bad_header : HeadersError E

abbrev pub Call : (W E A : Type 0) → Type 0
Call W E A = W → W × Result E A

-- `HeaderIndex`, as this handler uses it.
pub record HeaderIndex (W E H : Type 0) : Type 0 where
  pub find_height : List ℕ → Call W E (Option ℕ)
  pub get_by_height : ℕ → Call W E (Option H)
  pub put : ℕ → H → Call W E (Unit {0})

-- The trait `Blockchain`: calls of the Bitcoin node, whose chain may grow between them.
pub record Blockchain (W E H : Type 0) : Type 0 where
  pub block_count : Call W E ℕ
  pub block_hash_at : ℕ → Call W E (List ℕ)
  pub block_height : List ℕ → Call W E ℕ
  pub block_header : List ℕ → Call W E H

-- The context of a peer: its stores, the optional index and node, and the `Header` of the bitcoin
-- crate with its hash and its encoding.
pub record Context (W E H : Type 0) : Type 0 where
  pub chainview : Store W E
  pub header_index : Option (HeaderIndex W E H)
  pub header_source : Option (Blockchain W E H)
  pub block_hash : H → List ℕ
  pub serialize : H → List ℕ
  pub deserialize : List ℕ → Option H

abbrev pub Serve : (W E A : Type 0) → Type 0
Serve W E A = W → W × Result (HeadersError E) A

module _ {W E : Type 0} where
  unfoldable pub pure : {A : Type 0} → A → Serve W E A
  pure a w = (w, ok a)

  abbrev pub after :
      {A B : Type 0}
      → W × Result (HeadersError E) A
      → (A → Serve W E B)
      → W × Result (HeadersError E) B
  after (w, ok a) f = f a w
  after (w, err e) f = (w, err e)

  -- `?`
  unfoldable pub ◌>>=◌ : {A B : Type 0} → Serve W E A → (A → Serve W E B) → Serve W E B
  ◌>>=◌ m f w = after (m w) f

  abbrev pub called : {A : Type 0} → W × Result E A → W × Result (HeadersError E) A
  called (w, ok a) = (w, ok a)
  called (w, err e) = (w, err (call_failed e))

  abbrev pub call : {A : Type 0} → Call W E A → Serve W E A
  call f w = called (f w)

  abbrev pub seen : {A : Type 0} → W → Result (ViewError E) A → W × Result (HeadersError E) A
  seen w (ok a) = (w, ok a)
  seen w (err e) = (w, err (view_failed e))

  abbrev pub view : {A : Type 0} → (W → Result (ViewError E) A) → Serve W E A
  view f w = seen w (f w)

  abbrev pub kept : {A : Type 0} → W × Result (ViewError E) A → W × Result (HeadersError E) A
  kept (w, r) = seen w r

  abbrev pub save : {A : Type 0} → (W → W × Result (ViewError E) A) → Serve W E A
  save f w = kept (f w)

  -- `let Ok(a) = ... else { continue };`
  abbrev pub next_unless_ok :
      {A B : Type 0}
      → W × Result E A
      → Serve W E B
      → (A → Serve W E B)
      → W × Result (HeadersError E) B
  next_unless_ok (w, ok a) next f = f a w
  next_unless_ok (w, err e) next f = next w

  unfoldable pub ok_or_next :
      {A B : Type 0} → Call W E A → Serve W E B → (A → Serve W E B) → Serve W E B
  ok_or_next m next f w = next_unless_ok (m w) next f

module _ {W E H : Type 0} (context : Context W E H) where
  abbrev pub put_header : Option (HeaderIndex W E H) → ℕ → H → Serve W E (Unit {0})
  put_header none height header = pure tt
  put_header (some index) height header = call (index.put height header)

  abbrev pub index_height : Option (HeaderIndex W E H) → List ℕ → Serve W E (Option ℕ)
  index_height none hash = pure none
  index_height (some index) hash = call (index.find_height hash)

  abbrev pub index_header : Option (HeaderIndex W E H) → ℕ → Serve W E (Option H)
  index_header none height = pure none
  index_header (some index) height = call (index.get_by_height height)

  -- A locator whose height is known is taken or passed over; else the next lookup is made.
  abbrev pub known : ℕ → Option ℕ → Serve W E ℕ → Serve W E ℕ → Serve W E ℕ
  known published none rest next = next
  known published (some height) rest next = if leb height published then pure height else rest

  -- The node says that the locator is in its active chain: the height is saved.
  unfoldable pub save_locator : Blockchain W E H → List ℕ → ℕ → Serve W E ℕ
  save_locator source hash height = do
    header ← call (source.block_header hash)
    _ ← put_header context.header_index height header
    _ ← save (save_height context.chainview hash height)
    _ ← save (save_block_hash context.chainview height hash)
    pure height

  unfoldable pub ask_source : ℕ → List ℕ → Serve W E ℕ → Option (Blockchain W E H) → Serve W E ℕ
  ask_source published hash rest none = rest
  ask_source published hash rest (some source) =
      ok_or_next (source.block_height hash) rest (λ height.
        if leb height published
        then ok_or_next (source.block_hash_at height) rest
            (λ active. if bytes_eq active hash then save_locator source hash height else rest)
        else rest)

  unfoldable pub active_locator_height : ℕ → List (List ℕ) → Serve W E ℕ
  active_locator_height published [] = pure 0
  active_locator_height published (hash ∷ hashes) =
      let rest = active_locator_height published hashes in
      do
        indexed ← index_height context.header_index hash
        known published indexed rest do
          stored ← view (get_height context.chainview hash)
          known published stored rest (ask_source published hash rest context.header_source)

  abbrev pub decoded : List ℕ → Option H → Serve W E (Option (List ℕ × H))
  decoded hash none w = (w, err bad_header)
  decoded hash (some header) w = (w, ok (some (hash, header)))

  abbrev pub read_header : List ℕ → Option (List ℕ) → Serve W E (Option (List ℕ × H))
  read_header hash none = pure none
  read_header hash (some bytes) = decoded hash (context.deserialize bytes)

  abbrev pub stored_header : Option (List ℕ) → Serve W E (Option (List ℕ × H))
  stored_header none = pure none
  stored_header (some hash) = do
    bytes ← view (get_block context.chainview hash)
    read_header hash bytes

  unfoldable pub fetch_header : ℕ → Option (Blockchain W E H) → Serve W E (Option (List ℕ × H))
  fetch_header height none = pure none
  fetch_header height (some source) = do
    hash ← call (source.block_hash_at height)
    header ← call (source.block_header hash)
    _ ← put_header context.header_index height header
    _ ← save (save_block_hash context.chainview height hash)
    _ ← save (save_height context.chainview hash height)
    _ ← save (save_header context.chainview hash (context.serialize header))
    pure (some (hash, header))

  abbrev pub or_fetch : ℕ → Option (List ℕ × H) → Serve W E (Option (List ℕ × H))
  or_fetch height none = fetch_header height context.header_source
  or_fetch height (some found) = pure (some found)

  abbrev pub or_stored : ℕ → Option H → Serve W E (Option (List ℕ × H))
  or_stored height (some header) = pure (some (context.block_hash header, header))
  or_stored height none = do
    hash ← view (get_block_hash context.chainview height)
    found ← stored_header hash
    or_fetch height found

  unfoldable pub header_at_height : ℕ → Serve W E (Option (List ℕ × H))
  header_at_height height = do
    found ← index_header context.header_index height
    or_stored height found

  abbrev pub stops : List ℕ → List ℕ → Bool
  stops stop hash = not (bytes_eq stop all_zeros) && bytes_eq stop hash

  abbrev pub push_header : List ℕ → Option (List ℕ × H) → Serve W E (List H) → Serve W E (List H)
  push_header stop none rest = pure []
  push_header stop (some (hash, header)) rest =
      if stops stop hash then pure (header ∷ []) else do headers ← rest; pure (header ∷ headers)

  -- `for height in start..end`, on as many rounds as there are heights.
  unfoldable pub collect_headers : List ℕ → ℕ → ℕ → Serve W E (List H)
  collect_headers stop zero height = pure []
  collect_headers stop (suc n) height =
      let rest = collect_headers stop n (suc height) in
      do found ← header_at_height height; push_header stop found rest

  unfoldable pub end_height : ℕ → ℕ → Option (Blockchain W E H) → Serve W E ℕ
  end_height published start none =
      pure (least (saturating_add start max_headers) (saturating_add published 1))
  end_height published start (some source) = do
    count ← call source.block_count
    let own = saturating_add (least count u32_max) 1
    pure (least (least own (saturating_add start max_headers)) (saturating_add published 1))

  abbrev pub only_stop : List ℕ → Option (List ℕ × H) → List H
  only_stop stop none = []
  only_stop stop (some (hash, header)) = if bytes_eq hash stop then header ∷ [] else []

  -- The request without a locator is for the header of the stop hash alone.
  unfoldable pub stop_header : ℕ → List ℕ → Serve W E (List H)
  stop_header published stop = if bytes_eq stop all_zeros then pure [] else do
    height ← active_locator_height published (stop ∷ [])
    found ← header_at_height height
    pure (only_stop stop found)

  unfoldable pub headers_after : ℕ → List (List ℕ) → List ℕ → Serve W E (List H)
  headers_after published locator stop = do
    common ← active_locator_height published locator
    let start = saturating_add common 1
    last ← end_height published start context.header_source
    collect_headers stop (last - start) start

  unfoldable pub answer : ℕ → List (List ℕ) → List ℕ → Serve W E (List H)
  answer published [] stop = stop_header published stop
  answer published (hash ∷ hashes) stop = headers_after published (hash ∷ hashes) stop

  unfoldable pub headers_for_request : ℕ → GetHeadersMessage → Serve W E (List H)
  headers_for_request published request =
      if leb (length request.locator_hashes) max_locator_hashes
      then answer published request.locator_hashes request.stop_hash
      else (λ w. (w, err (too_many_locator_hashes (length request.locator_hashes))))
