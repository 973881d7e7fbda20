-- ===== src/Journal/Log/Finish.antt =====
-- src/forest_journal.rs: `JournalPrune::finish` keeps the system of the journal sound, or poisons it.
use rpc_utreexo_bridge.Base.{
  length, ℕ, ◌-◌, ◌≤◌, ◌<◌, ◌≡◌, refl, ◌∙◌, sym, subst, inl, inr, ◌⊎◌, false, Bool, List, [], ◌∷◌,
  ◌++◌, IsIn-split, append-nil, leb, ltb, Bool-cases, arith, if_false, if_true, Result,
}
use rpc_utreexo_bridge.File.{File, Outcome, SameOn, punch_hole}
use rpc_utreexo_bridge.Consensus.{BitcoinConsensus}
use rpc_utreexo_bridge.Journal.Record.Types.{BlockHeader, JournalRecord}
use rpc_utreexo_bridge.Journal.Log.State.{ForestJournal, JournalPrune, LogError}
use rpc_utreexo_bridge.Journal.Log.Operations.{
  Reclaim, punched, unsupported, refused, reclaim, finish,
}
use rpc_utreexo_bridge.Journal.Log.Chain.{Chain, Chain-split}
use rpc_utreexo_bridge.Journal.Log.Sound.{System, IsSound, IsPrunable, Stays, Laid-frame}
use rpc_utreexo_bridge.Journal.Log.Advance.{advance_marker-Stays}

-- A refused deallocation leaves what lies outside of the range.
abbrev pub KeepsOutside : Reclaim → File → ℕ → ℕ → Type 0
KeepsOutside punched file lo hi = Unit
KeepsOutside unsupported file lo hi = Unit
KeepsOutside (refused left) file lo hi =
    ((i : ℕ) → (i < lo) ⊎ (hi ≤ i) → left.byte_at i ≡ file.byte_at i) × (file.len ≤ left.len)

module _ {H : Type 0} (sha256 : List ℕ → List ℕ)
    (digest_32 : (bs : List ℕ) → length (sha256 bs) ≡ 32) (c : BitcoinConsensus)
    (block : BlockHeader H) where
  -- The file may change between the superblock and the floor.
  outside-IsSound :
      (s : System H) (file' : File)
      → IsSound sha256 digest_32 c block s
      → SameOn s.journal.file.byte_at file'.byte_at 0 96
      → SameOn s.journal.file.byte_at file'.byte_at s.journal.marker.replay_start
          s.journal.appended_end
      → s.journal.file.len ≤ file'.len
      → IsSound sha256 digest_32 c block (record s { journal = record s.journal { file = file' } })
  outside-IsSound s file' h head same fits = record {
    gone = h.gone;
    kept = h.kept;
    tail = h.tail;
    mid = h.mid;
    sound = record {
      in_memory = h.sound.in_memory;
      laid =
          Laid-frame sha256 digest_32 c block h.sound.laid file' head same
            (omega (arith, h.sound.laid.file_end, fits));
      marked = h.sound.marked;
      published = h.sound.published;
      last_is = h.sound.last_is;
    };
    handed = h.handed;
    pending = h.pending;
  }

  reclaim-Stays :
      (s : System H) (hole : Reclaim) (old : ℕ) (p : JournalPrune)
      → IsSound sha256 digest_32 c block s
      → s.journal.marker.replay_start ≡ p.replay_start
      → s.journal.page_size ≤ old
      → old ≤ p.replay_start
      → KeepsOutside hole s.journal.file old p.replay_start
      → Stays sha256 digest_32 c block s (reclaim sha256 hole s.journal old p)
  reclaim-Stays s unsupported old p h at above below keeps = inr h
  reclaim-Stays s punched old p h at above below keeps = inr (
      outside-IsSound s (punch_hole s.journal.file old (p.replay_start - old)) h
        (λ i from to. unfold punch_hole in ground (arith, above, h.sound.laid.page_large))
        (λ i from to. unfold punch_hole in ground (arith, at, below, from))
        (unfold punch_hole in omega arith))
  reclaim-Stays s (refused left) old p h at above below keeps = inr (
      outside-IsSound s left h
        (λ i from to. keeps.0 i (inl (omega (arith, above, to, h.sound.laid.page_large))))
        (λ i from to. keeps.0 i (inr (omega (arith, at, from)))) keeps.1)

  module _ (s : System H) (h : IsSound sha256 digest_32 c block s) where
    abbrev j : ForestJournal H
    j = s.journal

    -- The records that a pruning lets go, when it was not finished before.
    cut_at :
        (p : JournalPrune)
        → IsPrunable sha256 digest_32 c block j h.gone h.mid p
        → j.marker.replay_start < p.replay_start
        → (from : List (JournalRecord H)) × (rest : List (JournalRecord H)) × (h.gone
            ≡ from ++ rest)
          × Chain sha256 c block j.page_size j.file j.marker.replay_start from p.replay_start
          × Chain sha256 c block j.page_size j.file p.replay_start rest h.mid
    cut_at p (inl past) ahead = absurd (omega (arith, past, ahead))
    cut_at p (inr (inl here)) ahead = (
      h.gone,
      [],
      sym (append-nil h.gone),
      subst (λ (e : ℕ). Chain sha256 c block j.page_size j.file j.marker.replay_start h.gone e)
          (sym here) h.sound.laid.gone_chain,
      here,
    )
    cut_at p (inr (inr (q, there, at))) ahead =
        let (pre, post, parts) = IsIn-split q h.gone there in
        let (mid, front, back) =
          Chain-split sha256 c block j.page_size j.file j.marker.replay_start h.mid pre (q ∷ post) (
            subst
              (λ (rs : List (JournalRecord H)).
                Chain sha256 c block j.page_size j.file j.marker.replay_start rs h.mid)
              parts h.sound.laid.gone_chain) in
        let same : mid ≡ p.replay_start = sym back.0.at ∙ at in
        (
          pre,
          q ∷ post,
          parts,
          subst (λ (e : ℕ). Chain sha256 c block j.page_size j.file j.marker.replay_start pre e)
              same front,
          subst (λ (b : ℕ). Chain sha256 c block j.page_size j.file b (q ∷ post) h.mid) same back,
        )

    -- A sound system whose journal is not poisoned, a pruning that it handed out, and a deallocation that leaves what lies
    -- outside its range when it is refused: after `finish`, however its other calls go, the journal is
    -- poisoned or the system is sound.
    pub finish-Stays :
        (first second : Outcome × Bool) (hole : Reclaim) (p : JournalPrune)
        → j.poisoned ≡ false
        → IsPrunable sha256 digest_32 c block j h.gone h.mid p
        → KeepsOutside hole j.file j.marker.replay_start p.replay_start
        → Stays sha256 digest_32 c block s (finish sha256 first second hole j p)
    unfolding finish
    finish-Stays first second hole p live fine keeps =
        let P : ForestJournal H × Result LogError ℕ → Type 0 = Stays sha256 digest_32 c block s in
        subst P (sym (if_false _ _ live))
          (elim (Bool-cases (leb p.replay_start j.marker.replay_start)) [
            | inl past ↦ subst P (sym (if_true _ _ past)) (inr h)
            | inr ahead ↦
                subst P (sym (if_false _ _ ahead))
                  (elim (Bool-cases (ltb j.marker.boundary.offset p.replay_start)) [
                    | inl beyond ↦ subst P (sym (if_true _ _ beyond)) (inr h)
                    | inr within ↦ subst P (sym (if_false _ _ within)) (
                        let later : j.marker.replay_start < p.replay_start =
                          ground (arith, ahead) in
                        let up_to : p.replay_start ≤ j.marker.boundary.offset =
                          ground (arith, within) in
                        let (from, rest, parts, front, back) = cut_at p fine later in
                        advance_marker-Stays sha256 digest_32 c block s h first.0 first.1
                          p.replay_start from rest _ parts front back up_to
                          (λ g h1.
                            advance_marker-Stays sha256 digest_32 c block _ h1 second.0 second.1
                              p.replay_start [] h1.gone _ refl refl h1.sound.laid.gone_chain up_to
                              (λ g' h2.
                                reclaim-Stays _ hole j.marker.replay_start p h2 refl
                                  h.sound.laid.first_page (omega (arith, later)) keeps)))
                  ])
          ])
