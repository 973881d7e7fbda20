-- ===== src/Journal/Log/Floor.antt =====
-- src/forest_journal.rs: the replay floor of the marker never moves back, and a pruning that was
-- finished has moved it.
use rpc_utreexo_bridge.Base.{
  ℕ, ◌≤◌, ◌≡◌, refl, sym, subst, ◌∙◌, Bool, true, false, List, length, Option, none, some,
  Option-cases, Bool-cases, inl, inr, leb, ltb, leb→le, ◌==◌, not, if◌then◌else◌, get_elem?, Result,
  Result-cases, ok, err, arith, checked_add, ◌||◌,
}
use rpc_utreexo_bridge.File.{File, Outcome, done, failed}
use rpc_utreexo_bridge.Consensus.{BitcoinConsensus}
use rpc_utreexo_bridge.Journal.Entry.Types.{JournalEntry}
use rpc_utreexo_bridge.Journal.Marker.Defs.{JournalBoundary, PublicationMarker}
use rpc_utreexo_bridge.Journal.Record.Types.{
  BlockHeader, JournalReplayPayload, JournalRecord, RecordError,
}
use rpc_utreexo_bridge.Journal.Record.Payload.{
  header_matches, encode_payload, record_version, is_none,
}
use rpc_utreexo_bridge.Journal.Record.Disk.{WriteOutcome, validate_boundary}
use rpc_utreexo_bridge.Journal.Log.State.{
  LogError, generation_overflow, ForestJournal, JournalPrune, published_records, and_then,
}
use rpc_utreexo_bridge.Journal.Log.Operations.{
  Reclaim, punched, unsupported, refused, start_prune, prune_point, hand_over, prepare_prune,
  discard_unpublished, set_status, mark_rolled_back, is_stale, store_marker, commit, publish,
  advance_marker, reclaim, finish, settle, append_payload, append_block,
}
use rpc_utreexo_bridge.Journal.Log.Sound.{System}
use rpc_utreexo_bridge.Journal.Log.AppendBlock.{after_append}
use rpc_utreexo_bridge.Journal.Log.Prune.{after_prepare}

-- What holds of both branches of a test holds of the test.
either {ℓ κ} :
    {A : Type ℓ} (P : A → Type κ) (b : Bool) (x y : A) → P x → P y → P (if b then x else y)
either P true x y p q = p
either P false x y p q = q

module _ {H : Type 0} where
  abbrev pub floor_of : ForestJournal H → ℕ
  floor_of j = j.marker.replay_start

  -- The floor is that of `j`.
  abbrev pub Keeps {ℓ} : {A : Type ℓ} → ForestJournal H → ForestJournal H × A → Type 0
  Keeps j q = floor_of q.0 ≡ floor_of j

  and_then-Keeps {ℓ κ} :
      {A : Type ℓ} {B : Type κ} (j : ForestJournal H) (q : ForestJournal H × Result LogError A)
      (next : ForestJournal H → A → ForestJournal H × Result LogError B)
      → Keeps j q
      → ((j' : ForestJournal H) (a : A) → Keeps j' (next j' a))
      → Keeps j (and_then q next)
  and_then-Keeps j (j', ok a) next h k = k j' a ∙ h
  and_then-Keeps j (j', err e) next h k = h

  start_prune-Keeps : (j : ForestJournal H) (point : Option ℕ) → Keeps j (start_prune j point)
  start_prune-Keeps j none = refl
  start_prune-Keeps j (some count) =
      either (Keeps j) (count == 0) _ _ refl (elim (Option-cases (get_elem? j.records count)) [
        | inl e ↦ rw e refl
        | inr (r, e) ↦ rw e refl
      ])

  pub discard_unpublished-Keeps :
      (cut : Outcome) (j : ForestJournal H) → Keeps j (discard_unpublished cut j)
  unfolding discard_unpublished
  discard_unpublished-Keeps (failed left) j = either (Keeps j) j.poisoned _ _ refl refl
  discard_unpublished-Keeps done j = either (Keeps j) j.poisoned _ _ refl refl

  set_status-Keeps :
      (write : Outcome) (synced : Bool) (j : ForestJournal H) (index : ℕ) (r : JournalRecord H)
      → Keeps j (set_status write synced j index r)
  set_status-Keeps (failed left) synced j index r = refl
  set_status-Keeps done false j index r = refl
  set_status-Keeps done true j index r = refl

  pub mark_rolled_back-Keeps :
      (write : Outcome) (synced : Bool) (j : ForestJournal H) (index : ℕ)
      → Keeps j (mark_rolled_back write synced j index)
  unfolding mark_rolled_back
  mark_rolled_back-Keeps write synced j index = either (Keeps j) j.poisoned _ _ refl (
      either (Keeps j) (not (j.appended_end == j.published_end)) _ _ refl (
        either (Keeps j) (leb (length (published_records j)) index) _ _ refl
          (elim (Option-cases (get_elem? j.records index)) [
            | inl e ↦ rw e refl
            | inr (r, e) ↦ rw e (set_status-Keeps write synced j index r)
          ])))

  pub prepare_prune-Keeps :
      (s : System H) (cloned : Bool) (keep : ℕ)
      → floor_of (after_prepare s (prepare_prune cloned s.journal keep)).journal
        ≡ floor_of s.journal
  unfolding prepare_prune
  prepare_prune-Keeps s cloned keep =
      either (λ q. floor_of (after_prepare s q).journal ≡ floor_of s.journal) s.journal.poisoned _ _
        refl (handed (start_prune s.journal point) (start_prune-Keeps s.journal point))
    where
      clone_or :
          (b : Bool) (j' : ForestJournal H) (p : JournalPrune)
          → Keeps s.journal (j', some p)
          → floor_of (after_prepare s (hand_over b s.journal (j', some p))).journal
            ≡ floor_of s.journal
      clone_or true j' p h = h
      clone_or false j' p h = refl

      point : Option ℕ
      point = (prune_point keep 0 (published_records s.journal)).1

      handed :
          (q : ForestJournal H × Option JournalPrune)
          → Keeps s.journal q
          → floor_of (after_prepare s (hand_over cloned s.journal q)).journal ≡ floor_of s.journal
      handed (j', none) h = h
      handed (j', some p) h = clone_or cloned j' p h

module _ {H : Type 0} (sha256 : List ℕ → List ℕ) where
  store_marker-Keeps :
      (write : Outcome) (flushed : Bool) (j : ForestJournal H) (next : PublicationMarker)
      → next.replay_start ≡ floor_of j
      → Keeps j (store_marker sha256 write flushed j next)
  store_marker-Keeps (failed left) flushed j next h = refl
  store_marker-Keeps done false j next h = refl
  store_marker-Keeps done true j next h = h

  commit-Keeps :
      (synced : Bool) (write : Outcome) (flushed : Bool) (j : ForestJournal H) (b : JournalBoundary)
      → Keeps j (commit sha256 synced write flushed j b)
  commit-Keeps false write flushed j b = refl
  commit-Keeps true write flushed j b = elim (Option-cases (checked_add j.marker.generation 1)) [
    | inl e ↦ rw (commit, e) refl
    | inr (g, e) ↦
        rw (commit, e)
          (and_then-Keeps j _ _ (store_marker-Keeps write flushed j _ refl) (λ j' a. refl))
  ]

  pub publish-Keeps :
      (synced : Bool) (write : Outcome) (flushed : Bool) (j : ForestJournal H) (b : JournalBoundary)
      → Keeps j (publish sha256 synced write flushed j b)
  unfolding publish
  publish-Keeps synced write flushed j b = either (Keeps j) j.poisoned _ _ refl (
      either (Keeps j) (is_stale j b) _ _ refl (
        either (Keeps j) (b.end == j.marker.boundary.end) _ _ refl
          (elim (Result-cases (validate_boundary sha256 j.file j.page_size b)) [
            | inl (u, e) ↦ rw e (commit-Keeps synced write flushed j b)
            | inr (e', e) ↦ rw e refl
          ])))

  -- The floor does not move back, and behind a success it is that of the pruning or above.
  abbrev pub Advances {ℓ} :
      {A : Type ℓ} → ForestJournal H → ℕ → ForestJournal H × Result LogError A → Type 0
  Advances j start (j', ok a) = (floor_of j ≤ floor_of j') × (start ≤ floor_of j')
  Advances j start (j', err e) = floor_of j ≤ floor_of j'

  store_marker-Advances :
      (write : Outcome) (flushed : Bool) (j j1 : ForestJournal H) (next : PublicationMarker)
      → floor_of j ≤ floor_of j1
      → floor_of j ≤ next.replay_start
      → Advances j next.replay_start (store_marker sha256 write flushed j1 next)
  store_marker-Advances (failed left) flushed j j1 next before h = before
  store_marker-Advances done false j j1 next before h = before
  store_marker-Advances done true j j1 next before h = (h, omega arith)

  advance_marker-Advances :
      (write : Outcome) (flushed : Bool) (j j1 : ForestJournal H) (start : ℕ)
      → floor_of j ≤ floor_of j1
      → floor_of j ≤ start
      → Advances j start (advance_marker sha256 write flushed j1 start)
  advance_marker-Advances write flushed j j1 start before h =
      elim (Option-cases (checked_add j1.marker.generation 1)) [
        | inl e ↦
            let stops : advance_marker sha256 write flushed j1 start
                ≡ (j1, err generation_overflow) =
              rw (advance_marker, e) refl in
            subst (Advances j start) (sym stops) before
        | inr (g, e) ↦
            let next : PublicationMarker = record {
              generation = g;
              replay_start = start;
              boundary = j1.marker.boundary;
            } in
            let stores : advance_marker sha256 write flushed j1 start
                ≡ store_marker sha256 write flushed j1 next =
              rw (advance_marker, e) refl in
            subst (Advances j start) (sym stores)
              (store_marker-Advances write flushed j j1 next before h)
      ]

  and_then-Advances :
      {A B : Type 0} (j : ForestJournal H) (start : ℕ) (q : ForestJournal H × Result LogError A)
      (next : ForestJournal H → A → ForestJournal H × Result LogError B)
      → Advances j start q
      → ((j' : ForestJournal H) (a : A)
          → floor_of j ≤ floor_of j'
          → start ≤ floor_of j'
          → Advances j start (next j' a))
      → Advances j start (and_then q next)
  and_then-Advances j start (j', ok a) next h k = k j' a h.0 h.1
  and_then-Advances j start (j', err e) next h k = h

  reclaim-Advances :
      (hole : Reclaim) (j j' : ForestJournal H) (old start : ℕ) (p : JournalPrune)
      → floor_of j ≤ floor_of j'
      → start ≤ floor_of j'
      → Advances j start (reclaim sha256 hole j' old p)
  reclaim-Advances punched j j' old start p h k = (h, k)
  reclaim-Advances unsupported j j' old start p h k = (h, k)
  reclaim-Advances (refused left) j j' old start p h k = h

  -- Both markers of a pruning carry its start.
  pub finish-Advances :
      (first second : Outcome × Bool) (hole : Reclaim) (j : ForestJournal H) (p : JournalPrune)
      → Advances j p.replay_start (finish sha256 first second hole j p)
  unfolding finish
  finish-Advances first second hole j p =
      let P : ForestJournal H × Result LogError ℕ → Type 0 = Advances j p.replay_start in
      either P j.poisoned _ _ (omega arith)
        (elim (Bool-cases (leb p.replay_start j.marker.replay_start)) [
          | inl past ↦ rw past (omega arith, leb→le _ _ past)
          | inr ahead ↦ rw ahead (
              either P (ltb j.marker.boundary.offset p.replay_start) _ _ (omega arith) (
                and_then-Advances j p.replay_start _ _
                  (advance_marker-Advances first.0 first.1 j j p.replay_start (omega arith)
                    (ground arith))
                  (λ j1 u h1 k1.
                    and_then-Advances j p.replay_start _ _
                      (advance_marker-Advances second.0 second.1 j j1 p.replay_start h1
                        (ground arith))
                      (λ j2 v h2 k2.
                        reclaim-Advances hole j j2 j.marker.replay_start p.replay_start p h2 k2))))
        ])

module _ {H : Type 0} (sha256 : List ℕ → List ℕ) (c : BitcoinConsensus)
    (block : BlockHeader H) where
  settle-Keeps :
      (cut : Outcome) (j : ForestJournal H) (q : File × Result RecordError (JournalRecord H))
      → Keeps j (settle sha256 c block cut j q)
  settle-Keeps done j (file, err e) = refl
  settle-Keeps (failed left) j (file, err e) = refl
  settle-Keeps cut j (file, ok r) = refl

  pub append_block-Keeps :
      (io : WriteOutcome) (cut : Outcome) (j : ForestJournal H) (entry : JournalEntry)
      (replay : JournalReplayPayload H)
      → Keeps j (append_block sha256 c block io cut j entry replay)
  unfolding append_block append_payload
  append_block-Keeps io cut j entry replay =
      either (Keeps j) (is_none entry.forest_rows || ltb 63 replay.proof_forest_rows) _ _ refl (
        either (Keeps j) (not (header_matches c block replay.header entry)) _ _ refl
          (elim (Result-cases (encode_payload c block entry replay)) [
            | inl (payload, e) ↦ rw e (
                and_then-Keeps j
                  (append_payload sha256 c block io cut j entry (some replay) payload
                    record_version)
                  _ (either (Keeps j) j.poisoned _ _ refl (settle-Keeps cut j _)) (λ j' a. refl))
            | inr (e', e) ↦ rw e refl
          ]))

  pub after_append-Keeps :
      (s : System H) (q : ForestJournal H × Result LogError JournalBoundary)
      → Keeps s.journal q
      → floor_of (after_append s q).journal ≡ floor_of s.journal
  after_append-Keeps s (j', ok b) h = h
  after_append-Keeps s (j', err e) h = h
