-- ===== src/Journal/Log/Prune.antt =====
-- src/forest_journal.rs: `prepare_prune` and `finish` keep the system of the journal sound, or
-- poison it.
use rpc_utreexo_bridge.Base.{
  Bool, true, false, if◌then◌else◌, ℕ, zero, suc, ◌+◌, ◌≤◌, ◌<◌, ◌≡◌, refl, ap, ◌∙◌, sym, subst,
  inl, inr, ◌⊎◌, List, [], ◌∷◌, ◌++◌, append_assoc, IsIn, IsIn-append_left, IsIn-append_right,
  All-map, length, drop, drop-append, leb, ◌==◌, get_elem?, get_elem?-append, Option, none, some,
  Bool-cases, arith, if_false, if_true, Result, ok, err,
}
use rpc_utreexo_bridge.Consensus.{BitcoinConsensus}
use rpc_utreexo_bridge.Journal.Record.Types.{BlockHeader, JournalRecord, last_boundary}
use rpc_utreexo_bridge.Journal.Log.State.{
  ForestJournal, JournalPrune, LogError, published_records, records_through, is_forward,
}
use rpc_utreexo_bridge.Journal.Log.Operations.{
  prune_point, prune_step, start_prune, hand_over, prepare_prune,
}
use rpc_utreexo_bridge.Journal.Log.Chain.{Chain, Chain-append, Chain-split}
use rpc_utreexo_bridge.Journal.Log.Sound.{System, IsSound}
use rpc_utreexo_bridge.Journal.Log.Discard.{published-records}

-- The system after `prepare_prune`: the pruning that it returned is handed out.
abbrev pub after_prepare :
    {H : Type 0} → System H → ForestJournal H × Result LogError (Option JournalPrune) → System H
after_prepare s (j', ok (some p)) = record s { journal = j'; prunes = p ∷ s.prunes }
after_prepare s (j', ok none) = record s { journal = j' }
after_prepare s (j', err e) = record s { journal = j' }

module _ {H : Type 0} where
  prune_step-inside :
      (keep start n index : ℕ) (r : JournalRecord H) (q : ℕ × Option ℕ)
      → ((i : ℕ) → q.1 ≡ some i → (start + 1 ≤ i) × (i < start + 1 + n))
      → (prune_step keep start r q).1 ≡ some index
      → (start ≤ index) × (index < start + suc n)
  prune_step-inside keep start n index r (met, some count) inside h =
      let (from, to) = inside index h in (omega (arith, from), omega (arith, to))
  prune_step-inside keep start n index r (met, none) inside h =
      elim (Bool-cases (is_forward r.status)) [
        | inr rolled ↦ cc (rw rolled at h)
        | inl live ↦ elim (Bool-cases (leb (if leb keep 1 then 1 else keep) (met + 1))) [
          | inr few ↦ cc (rw (live, few) at h)
          | inl enough ↦
              let same : some start ≡ some index = rw (live, enough) at h in
              let at : start ≡ index = cc same in (omega (arith, at), omega (arith, at))
        ]
      ]

  -- The loop stops at an index of the records.
  prune_point-inside :
      (keep start : ℕ) (rs : List (JournalRecord H)) (index : ℕ)
      → (prune_point keep start rs).1 ≡ some index
      → (start ≤ index) × (index < start + length rs)
  unfolding prune_point
  prune_point-inside keep start [] index h = cc
  prune_point-inside keep start (r ∷ rs) index h =
      prune_step-inside keep start (length rs) index r (prune_point keep (start + 1) rs)
        (λ i e. prune_point-inside keep (start + 1) rs i e) h

  split_at :
      (rs : List (JournalRecord H)) (i : ℕ)
      → i < length rs
      → (pre : List (JournalRecord H)) × (r : JournalRecord H) × (post : List (JournalRecord H))
        × (rs ≡ pre ++ (r ∷ post))
        × (length pre ≡ i)
  split_at [] i h = absurd (omega (arith, h))
  split_at (r ∷ rs) zero h = ([], r, rs, refl, refl)
  split_at (r ∷ rs) (suc i) h =
      let (pre, q, post, e, n) = split_at rs i (omega arith) in
      (r ∷ pre, q, post, ap (◌∷◌ r) e, ap suc n)

module _ {H : Type 0} (sha256 : List ℕ → List ℕ)
    (digest_32 : (bs : List ℕ) → length (sha256 bs) ≡ 32) (c : BitcoinConsensus)
    (block : BlockHeader H) (s : System H) (h : IsSound sha256 digest_32 c block s) where
  abbrev j : ForestJournal H
  j = s.journal

  -- A chain that moves on has a record at its start.
  head_of :
      (start end : ℕ) (rs : List (JournalRecord H))
      → Chain sha256 c block j.page_size j.file start rs end
      → (start ≡ end) ⊎ ((r : JournalRecord H) × IsIn r rs × (r.offset ≡ start))
  head_of start end [] k = inl k
  head_of start end (r ∷ rs) k = inr (r, inl refl, k.0.at)

  -- The records in front of `r` are let go.
  let_go :
      (count : ℕ) (pre : List (JournalRecord H)) (r : JournalRecord H)
      (post : List (JournalRecord H))
      → h.kept ≡ pre ++ (r ∷ post)
      → length pre ≡ count
      → IsSound sha256 digest_32 c block (record s {
        journal = record j { records = drop count j.records };
        prunes = record { replay_start = r.offset; count = count } ∷ s.prunes;
      })
  let_go count pre r post parts size =
      let l = h.sound.laid in
      let (mid, front, back) =
        Chain-split sha256 c block j.page_size j.file h.mid j.marker.boundary.end pre (r ∷ post) (
          subst
            (λ (rs : List (JournalRecord H)).
              Chain sha256 c block j.page_size j.file h.mid rs j.marker.boundary.end)
            parts l.kept_chain) in
      let all : j.records ≡ pre ++ ((r ∷ post) ++ h.tail) =
        h.sound.in_memory
        ∙ ap (λ (rs : List (JournalRecord H)). rs ++ h.tail) parts
        ∙ append_assoc pre (r ∷ post) h.tail in
      let cut : drop count j.records ≡ (r ∷ post) ++ h.tail =
        ap (drop count) all
        ∙ ap (λ (n : ℕ). drop n (pre ++ ((r ∷ post) ++ h.tail))) (sym size)
        ∙ drop-append pre ((r ∷ post) ++ h.tail) in
      record {
        gone = h.gone ++ pre;
        kept = r ∷ post;
        tail = h.tail;
        mid = mid;
        sound = record {
          in_memory = cut;
          laid = record {
            gone_chain =
                Chain-append sha256 c block j.page_size j.file _ h.mid mid h.gone pre l.gone_chain
                  front;
            kept_chain = back;
            tail_chain = l.tail_chain;
            file_end = l.file_end;
            superblock = l.superblock;
            page_large = l.page_large;
            first_page = l.first_page;
          };
          marked = h.sound.marked;
          published = h.sound.published;
          last_is =
              ap (last_boundary j.journal_id 0 j.page_size)
                (append_assoc h.gone pre (r ∷ post) ∙ ap (◌++◌ h.gone) (sym parts))
              ∙ h.sound.last_is;
        };
        handed = h.handed;
        pending = (
          inr (inl back.0.at),
          All-map
              (λ p fine. elim fine [
                | inl past ↦ inl past
                | inr (inl here) ↦ elim (head_of h.mid mid pre front) [
                  | inl same ↦ inr (inl (here ∙ same))
                  | inr (q, there, at) ↦
                      inr (inr (q, IsIn-append_right q h.gone pre there, at ∙ sym here))
                ]
                | inr (inr (q, there, at)) ↦ inr (inr (q, IsIn-append_left q h.gone pre there, at))
              ])
              s.prunes h.pending,
        );
      }

  start-IsSound :
      (found : Option ℕ)
      → ((i : ℕ) → found ≡ some i → i < length h.kept)
      → let started = start_prune j found in
        IsSound sha256 digest_32 c block (after_prepare s (started.0, ok started.1))
  start-IsSound none inside = h
  start-IsSound (some count) inside = elim (Bool-cases (count == 0)) [
    | inl first ↦ rw first h
    | inr later ↦
        let (pre, r, post, parts, size) = split_at h.kept count (inside count refl) in
        let there : get_elem? j.records count ≡ some r =
          ap (λ (rs : List (JournalRecord H)). get_elem? rs count)
            (h.sound.in_memory
              ∙ ap (λ (rs : List (JournalRecord H)). rs ++ h.tail) parts
              ∙ append_assoc pre (r ∷ post) h.tail)
          ∙ ap (get_elem? (pre ++ ((r ∷ post) ++ h.tail)))
              (let e : count ≡ length pre + 0 = omega (arith, size) in e)
          ∙ get_elem?-append pre ((r ∷ post) ++ h.tail) 0 in
        rw (later, there) (let_go count pre r post parts size)
  ]

  hand_over-IsSound :
      (cloned : Bool) (q : ForestJournal H × Option JournalPrune)
      → IsSound sha256 digest_32 c block (after_prepare s (q.0, ok q.1))
      → IsSound sha256 digest_32 c block (after_prepare s (hand_over cloned j q))
  hand_over-IsSound cloned (j', none) k = k
  hand_over-IsSound true (j', some p) k = k
  hand_over-IsSound false (j', some p) k = h

  -- A sound system: after `prepare_prune`, for every number of records to keep, the system with the pruning handed out is
  -- sound.
  pub prepare_prune-IsSound :
      (cloned : Bool) (keep : ℕ)
      → IsSound sha256 digest_32 c block (after_prepare s (prepare_prune cloned j keep))
  unfolding prepare_prune published_records
  prepare_prune-IsSound cloned keep = elim (Bool-cases j.poisoned) [
    | inl dead ↦
        subst (λ q. IsSound sha256 digest_32 c block (after_prepare s q)) (sym (if_true _ _ dead)) h
    | inr live ↦
        subst (λ q. IsSound sha256 digest_32 c block (after_prepare s q)) (sym (if_false _ _ live))
          (hand_over-IsSound cloned (start_prune j (prune_point keep 0 (published_records j)).1) (
            start-IsSound (prune_point keep 0 (published_records j)).1 (λ i e.
              let same : published_records j ≡ h.kept =
                ap (λ (end : ℕ). records_through end j.records) h.sound.published
                ∙ published-records sha256 digest_32 c block s h in
              omega
                (arith, (prune_point-inside keep 0 (published_records j) i e).1, ap length same))))
  ]
