-- ===== src/Journal/Log/Progress.antt =====
-- src/forest_journal.rs: a publication whose calls succeed, succeeds.
use rpc_utreexo_bridge.Base.{
  ℕ, ◌+◌, ◌^◌, ◌≤◌, ◌<◌, ◌≡◌, refl, ap, ◌∙◌, sym, subst, true, false, List, length, arith, ok, some,
  ◌==◌, if_false, checked_add, lt→ltb, Result,
}
use rpc_utreexo_bridge.Bytes.{bytes_eq_refl}
use rpc_utreexo_bridge.File.{done}
use rpc_utreexo_bridge.Consensus.{BitcoinConsensus}
use rpc_utreexo_bridge.Journal.Marker.Defs.{JournalBoundary}
use rpc_utreexo_bridge.Journal.Record.Types.{BlockHeader, JournalRecord, record_boundary}
use rpc_utreexo_bridge.Journal.Record.Disk.{validate_boundary}
use rpc_utreexo_bridge.Journal.Record.Boundary.{validate_boundary-Held}
use rpc_utreexo_bridge.Journal.Log.State.{ForestJournal, LogError}
use rpc_utreexo_bridge.Journal.Log.Operations.{is_stale, commit, publish}
use rpc_utreexo_bridge.Journal.Log.Chain.{Chain-IsIn}
use rpc_utreexo_bridge.Journal.Log.Sound.{System, IsSound, IsCurrent}

module _ {H : Type 0} (sha256 : List ℕ → List ℕ)
    (digest_32 : (bs : List ℕ) → length (sha256 bs) ≡ 32) (c : BitcoinConsensus)
    (block : BlockHeader H) (s : System H) (h : IsSound sha256 digest_32 c block s) where
  abbrev j : ForestJournal H
  j = s.journal

  -- The publication was done, and `b` is what is published.
  pub record Publishes (b : JournalBoundary) (q : ForestJournal H × Result LogError (Unit {0}))
      : Type 0 where
    pub succeeded : q.1 ≡ ok tt
    pub end_moved : q.0.published_end ≡ b.end
    pub boundary_moved : q.0.marker.boundary ≡ b
    pub floor_kept : q.0.marker.replay_start ≡ j.marker.replay_start
    pub live : q.0.poisoned ≡ j.poisoned

  fresh-boundary :
      (r : JournalRecord H)
      → j.marker.boundary.end < r.offset + r.span
      → r.offset + r.span ≤ j.appended_end
      → is_stale j (record_boundary r j.journal_id j.epoch) ≡ false
  unfolding is_stale record_boundary
  fresh-boundary r ahead inside = ground (arith, bytes_eq_refl j.journal_id)

  commit-Publishes :
      (b : JournalBoundary)
      → j.marker.generation + 1 < 2 ^ 64
      → Publishes b (commit sha256 true done true j b)
  commit-Publishes b young =
      let sum : checked_add j.marker.generation 1 ≡ some (j.marker.generation + 1) =
        unfold checked_add in rw (lt→ltb (j.marker.generation + 1) (2 ^ 64) young) refl in
      rw (commit, sum)
        (record {
          succeeded = refl;
          end_moved = refl;
          boundary_moved = refl;
          floor_kept = refl;
          live = refl;
        })

  -- A sound system whose journal is not poisoned, a boundary that it handed out in this epoch and that lies behind the
  -- published end, and a generation that can be counted on: when every call of the system succeeds, `publish` succeeds, the
  -- boundary is what is published, and the journal stays unpoisoned.
  pub publish-Publishes :
      (b : JournalBoundary)
      → j.poisoned ≡ false
      → IsCurrent sha256 digest_32 c block j h.tail b
      → b.epoch ≡ j.epoch
      → j.marker.boundary.end < b.end
      → j.marker.generation + 1 < 2 ^ 64
      → Publishes b (publish sha256 true done true j b)
  unfolding publish record_boundary
  publish-Publishes b live cur now ahead young =
      let (r, there, same) = cur.1 now ahead in
      let own = record_boundary r j.journal_id j.epoch in
      let stops : b.end ≡ r.offset + r.span = ap (λ (x : JournalBoundary). x.end) same in
      let (from, to, pos, page, held) =
        Chain-IsIn sha256 c block j.page_size j.file j.marker.boundary.end j.appended_end h.tail r
          h.sound.laid.tail_chain h.sound.marked.marker_consistent.end_aligned there in
      let fresh : is_stale j b ≡ false =
        subst (λ (x : JournalBoundary). is_stale j x ≡ false) (sym same)
          (fresh-boundary r (omega (arith, ahead, stops)) to) in
      let valid : validate_boundary sha256 j.file j.page_size b ≡ ok tt =
        subst (λ (x : JournalBoundary). validate_boundary sha256 j.file j.page_size x ≡ ok tt)
          (sym same)
          (validate_boundary-Held sha256 c block j.page_size j.file r j.journal_id j.epoch held) in
      let later : (b.end == j.marker.boundary.end) ≡ false = ground (arith, ahead) in
      subst (Publishes b) (sym (if_false _ _ live ∙ if_false _ _ fresh ∙ if_false _ _ later))
        (rw valid (commit-Publishes b young))
