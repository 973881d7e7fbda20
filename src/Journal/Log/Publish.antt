-- ===== src/Journal/Log/Publish.antt =====
-- src/forest_journal.rs: `publish` keeps the system of the journal sound, or poisons it.
use rpc_utreexo_bridge.Base.{
  ℕ, suc, ◌^◌, ◌≤◌, ◌<◌, ◌≡◌, refl, sym, subst, inl, inr, true, false, Bool, List, [], ◌∷◌, IsIn,
  IsIn-split, ◌++◌, All-map, arith, ok, length, Bool-cases, Option-cases, Result-cases, ◌==◌,
  if_false, if_true, checked_add,
}
use rpc_utreexo_bridge.File.{Outcome, done, failed}
use rpc_utreexo_bridge.Consensus.{BitcoinConsensus}
use rpc_utreexo_bridge.Journal.Marker.Defs.{
  JournalBoundary, PublicationMarker, write_publication_marker,
}
use rpc_utreexo_bridge.Journal.Record.Types.{BlockHeader, JournalRecord, record_boundary}
use rpc_utreexo_bridge.Journal.Record.Disk.{validate_boundary}
use rpc_utreexo_bridge.Journal.Record.Plan.{checked_add-eq-some}
use rpc_utreexo_bridge.Journal.Log.State.{ForestJournal, and_then}
use rpc_utreexo_bridge.Journal.Log.Operations.{store_marker, commit, is_stale, publish}
use rpc_utreexo_bridge.Journal.Log.Sound.{System, IsSound, IsCurrent, Stays}
use rpc_utreexo_bridge.Journal.Log.Published.{published-Sound, published-IsCurrent}

module _ {H : Type 0} (sha256 : List ℕ → List ℕ)
    (digest_32 : (bs : List ℕ) → length (sha256 bs) ≡ 32) (c : BitcoinConsensus)
    (block : BlockHeader H) (s : System H) (h : IsSound sha256 digest_32 c block s) where
  abbrev j : ForestJournal H
  j = s.journal

  abbrev next : ℕ → JournalBoundary → PublicationMarker
  next g b = record { generation = g; replay_start = j.marker.replay_start; boundary = b }

  -- The marker is written, with the boundary of a record that is not published yet.
  store-Stays :
      (write : Outcome) (flushed : Bool) (b : JournalBoundary) (r : JournalRecord H) (g : ℕ)
      → IsIn r h.tail
      → b ≡ record_boundary r j.journal_id j.epoch
      → g ≡ suc j.marker.generation
      → g < 256 ^ 8
      → Stays sha256 digest_32 c block s (
          and_then {B = Unit {0}}
            (store_marker sha256 write flushed j (next g b))
            (λ j' _. (record j' { published_end = b.end }, ok tt)))
  store-Stays (failed left) flushed b r g there same later fits = inl refl
  store-Stays done false b r g there same later fits = inl refl
  store-Stays done true b r g there same later fits =
      let (pre, post, parts) = IsIn-split r h.tail there in
      let live = record_boundary r j.journal_id j.epoch in
      let system : JournalBoundary → System H = λ x. record s {
        journal = record j {
          marker_file = write_publication_marker sha256 j.marker_file (next g x);
          marker = next g x;
          published_end = x.end;
        };
      } in
      let sound : IsSound sha256 digest_32 c block (system live) = record {
        gone = h.gone;
        kept = h.kept ++ (pre ++ (r ∷ []));
        tail = post;
        mid = h.mid;
        sound =
            published-Sound sha256 digest_32 c block j h.gone h.kept h.tail h.mid h.sound pre r post
              parts g later fits;
        handed =
            All-map
              (λ b' cur.
                published-IsCurrent sha256 digest_32 c block j h.gone h.kept h.tail h.mid h.sound
                  pre r post parts g later fits b' cur)
              s.boundaries h.handed;
        pending = h.pending;
      } in
      inr (
        subst (λ (x : JournalBoundary). IsSound sha256 digest_32 c block (system x)) (sym same)
          sound)

  commit-Stays :
      (synced : Bool) (write : Outcome) (flushed : Bool) (b : JournalBoundary) (r : JournalRecord H)
      → IsIn r h.tail
      → b ≡ record_boundary r j.journal_id j.epoch
      → Stays sha256 digest_32 c block s (commit sha256 synced write flushed j b)
  commit-Stays false write flushed b r there same = inl refl
  commit-Stays true write flushed b r there same =
      elim (Option-cases (checked_add j.marker.generation 1)) [
        | inl overflow ↦ rw (commit, overflow) (inl refl)
        | inr (g, sum) ↦
            let (exact, small) = checked_add-eq-some j.marker.generation 1 sum in
            rw (commit, sum)
              (store-Stays write flushed b r g there same (omega (arith, exact))
                (omega (arith, exact, small)))
      ]

  fresh-facts :
      (b : JournalBoundary)
      → is_stale j b ≡ false
      → (b.epoch ≡ j.epoch) × (j.marker.boundary.end ≤ b.end)
  unfolding is_stale
  fresh-facts b fresh = ground (arith, fresh)

  -- A sound system whose journal is not poisoned, and a boundary that it handed out: after `publish`, however its calls go, the
  -- journal is poisoned or the system is sound.
  pub publish-Stays :
      (synced : Bool) (write : Outcome) (flushed : Bool) (b : JournalBoundary)
      → j.poisoned ≡ false
      → IsCurrent sha256 digest_32 c block j h.tail b
      → Stays sha256 digest_32 c block s (publish sha256 synced write flushed j b)
  unfolding publish
  publish-Stays synced write flushed b live cur =
      let P = Stays sha256 digest_32 c block s in
      subst P (sym (if_false _ _ live)) (elim (Bool-cases (is_stale j b)) [
        | inl stale ↦ subst P (sym (if_true _ _ stale)) (inr h)
        | inr fresh ↦
            subst P (sym (if_false _ _ fresh)) (elim (Bool-cases (b.end == j.marker.boundary.end)) [
              | inl again ↦ subst P (sym (if_true _ _ again)) (inr h)
              | inr later ↦
                  subst P (sym (if_false _ _ later))
                    (elim (Result-cases (validate_boundary sha256 j.file j.page_size b)) [
                      | inr (e, invalid) ↦ rw invalid (inr h)
                      | inl (u, valid) ↦
                          let (now, from) = fresh-facts b fresh in
                          let (r, there, same) = cur.1 now (ground (arith, later, from)) in
                          rw valid (commit-Stays synced write flushed b r there same)
                    ])
            ])
      ])
