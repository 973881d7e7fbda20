-- ===== src/Journal/Marker/Recovery.antt =====
-- src/forest_journal.rs: what `read_publication_marker` finds after a marker was written, in whole
-- or in part.
use rpc_utreexo_bridge.Base.{
  ℕ, suc, ◌*◌, ◌%◌, ◌≤◌, ◌≡◌, refl, ◌∙◌, subst, sym, ap, true, false, Option, none, some, List,
  length, take, length-take-le, ok, arith, ◌⊎◌, inl, inr, ◌==◌, ==_iff, Bool-cases,
}
use rpc_utreexo_bridge.Bytes.{bytes_eq, bytes_eq_refl}
use rpc_utreexo_bridge.Bytes.Segments.{slice}
use rpc_utreexo_bridge.File.{
  File, read_exact_at, write_all_at, read-write-Apart, read_exact_at_bound,
}
use rpc_utreexo_bridge.Journal.Marker.Defs.{
  JournalBoundary, PublicationMarker, publication_slot_size, encode_publication_marker,
  publication_magic, slot_is_sealed, decode_slot, write_publication_marker, boundary_eq, newest,
  choose, read_slot, read_publication_marker,
}
use rpc_utreexo_bridge.Journal.Marker.Slot.{
  IsTypedMarker, IsConsistent, stored, length-encode, read_slot-held,
  read_exact_at-write_publication_marker,
}

-- `next` may follow `m`: one generation later, and nothing moves back.
pub record Follows (m next : PublicationMarker) : Type 0 where
  pub same_journal : next.boundary.journal_id ≡ m.boundary.journal_id
  pub later : next.generation ≡ suc m.generation
  pub end_le : m.boundary.end ≤ next.boundary.end
  pub replay_le : m.replay_start ≤ next.replay_start
  pub same_record :
      m.boundary.end ≡ next.boundary.end → (stored next).boundary ≡ (stored m).boundary

pub boundary_eq_refl : (b : JournalBoundary) → boundary_eq b b ≡ true
unfolding boundary_eq
boundary_eq_refl b =
    ground (arith, bytes_eq_refl b.journal_id, bytes_eq_refl b.block_hash, bytes_eq_refl b.checksum)

newest-Follows :
    (m next : PublicationMarker)
    → Follows m next
    → newest (stored m) (stored next) ≡ ok (stored next)
unfolding newest
newest-Follows m next f = elim (Bool-cases (next.boundary.end == m.boundary.end)) [
  | inl same ↦
      rw
        (
          f.same_record (omega (arith, (==_iff next.boundary.end m.boundary.end).0 same)),
          boundary_eq_refl (stored m).boundary,
        )
        (ground (arith, f.end_le, f.replay_le))
  | inr moved ↦ rw moved (ground (arith, f.end_le, f.replay_le))
]

choose-Follows :
    (m next : PublicationMarker)
    → Follows m next
    → (choose (some (stored m)) (some (stored next)) ≡ ok (stored next))
      × (choose (some (stored next)) (some (stored m)) ≡ ok (stored next))
unfolding choose
choose-Follows m next f = ground (arith, newest-Follows m next f, f.later)

module _ (sha256 : List ℕ → List ℕ) (digest_32 : (bs : List ℕ) → length (sha256 bs) ≡ 32) where
  -- The file holds `m` in the slot of its generation.
  abbrev pub Holds : File → PublicationMarker → Type 0
  Holds file m =
      read_exact_at file (m.generation % 2 * publication_slot_size) 172
      ≡ some (encode_publication_marker sha256 m)

  read_both :
      (file : File) (id : List ℕ) (page_size : ℕ) (first second : Option PublicationMarker)
      → read_slot sha256 id page_size 0 file ≡ ok first
      → read_slot sha256 id page_size 1 file ≡ ok second
      → read_publication_marker sha256 file id page_size ≡ choose first second
  unfolding read_publication_marker
  read_both file id page_size first second e f = rw (e, f)

  parity : (g : ℕ) → ((g % 2 ≡ 0) × (suc g % 2 ≡ 1)) ⊎ ((g % 2 ≡ 1) × (suc g % 2 ≡ 0))
  parity g = omega arith

  module _ (m next : PublicationMarker) (page_size : ℕ) (tm : IsTypedMarker m)
      (cm : IsConsistent page_size m) (tn : IsTypedMarker next) (cn : IsConsistent page_size next)
      (f : Follows m next) where
    -- The two slots lie apart, so a write into the slot of `next` leaves the slot of `m` as it was.
    other_slot :
        (file : File) (bs : List ℕ)
        → length bs ≤ 172
        → Holds file m
        → Holds (write_all_at file (next.generation % 2 * publication_slot_size) bs) m
    other_slot file bs short h =
        read-write-Apart file (m.generation % 2 * publication_slot_size) 172
          (next.generation % 2 * publication_slot_size) bs (ground (arith, f.later))
          (read_exact_at_bound file _ 172 h (omega arith))
        ∙ h

    slot-written :
        (file : File)
        → read_slot sha256 m.boundary.journal_id page_size
            (next.generation % 2)
            (write_publication_marker sha256 file next)
          ≡ ok (some (stored next))
    slot-written file =
        subst
          (λ id.
            read_slot sha256 id page_size (next.generation % 2)
              (write_publication_marker sha256 file next)
            ≡ ok (some (stored next)))
          f.same_journal
          (read_slot-held sha256 digest_32 next tn page_size _ cn
            (read_exact_at-write_publication_marker sha256 digest_32 next tn file))

    slot-kept :
        (file : File)
        → Holds file m
        → read_slot sha256 m.boundary.journal_id page_size
            (m.generation % 2)
            (write_publication_marker sha256 file next)
          ≡ ok (some (stored m))
    unfolding write_publication_marker
    slot-kept file h = read_slot-held sha256 digest_32 m tm page_size _ cm (
        other_slot file (encode_publication_marker sha256 next)
          (omega (arith, length-encode sha256 digest_32 next tn)) h)

    -- Two consistent markers, the second following the first: when the file holds the first, writing
    -- the second into its slot makes recovery find the second, whatever else the file holds.
    pub read_publication_marker-written :
        (file : File)
        → Holds file m
        → read_publication_marker sha256
            (write_publication_marker sha256 file next)
            m.boundary.journal_id
            page_size
          ≡ ok (stored next)
    read_publication_marker-written file h =
        let file' = write_publication_marker sha256 file next in
        let id = m.boundary.journal_id in
        let old = slot-kept file h in
        let new = slot-written file in
        elim (parity m.generation) [
          | inl (even, odd) ↦
              read_both file' id page_size _ _
                (subst (λ (s : ℕ). read_slot sha256 id page_size s file' ≡ ok (some (stored m)))
                  even old)
                (subst (λ (s : ℕ). read_slot sha256 id page_size s file' ≡ ok (some (stored next)))
                  (omega (arith, odd, f.later)) new)
              ∙ (choose-Follows m next f).0
          | inr (odd, even) ↦
              read_both file' id page_size _ _
                (subst (λ (s : ℕ). read_slot sha256 id page_size s file' ≡ ok (some (stored next)))
                  (omega (arith, even, f.later)) new)
                (subst (λ (s : ℕ). read_slot sha256 id page_size s file' ≡ ok (some (stored m))) odd
                  old)
              ∙ (choose-Follows m next f).1
        ]

    -- Which two slots there are, when both were read.
    recovered :
        (file : File) (slot : Option PublicationMarker) {found : PublicationMarker}
        → read_slot sha256 m.boundary.journal_id page_size (m.generation % 2) file
          ≡ ok (some (stored m))
        → read_slot sha256 m.boundary.journal_id page_size (next.generation % 2) file ≡ ok slot
        → choose (some (stored m)) slot ≡ ok found
        → choose slot (some (stored m)) ≡ ok found
        → read_publication_marker sha256 file m.boundary.journal_id page_size ≡ ok found
    recovered file slot held other one two =
        let id = m.boundary.journal_id in
        elim (parity m.generation) [
          | inl (even, odd) ↦
              read_both file id page_size _ _
                (subst (λ (s : ℕ). read_slot sha256 id page_size s file ≡ ok (some (stored m))) even
                  held)
                (subst (λ (s : ℕ). read_slot sha256 id page_size s file ≡ ok slot)
                  (omega (arith, odd, f.later)) other)
              ∙ one
          | inr (odd, even) ↦
              read_both file id page_size _ _
                (subst (λ (s : ℕ). read_slot sha256 id page_size s file ≡ ok slot)
                  (omega (arith, even, f.later)) other)
                (subst (λ (s : ℕ). read_slot sha256 id page_size s file ≡ ok (some (stored m))) odd
                  held)
              ∙ two
        ]

    next_odd : {b : ℕ} → suc m.generation % 2 ≡ b → next.generation % 2 ≡ b
    next_odd h = ap (λ n. n % 2) f.later ∙ h

    reads_bytes :
        (file : File) (bytes : List ℕ)
        → read_exact_at file (next.generation % 2 * publication_slot_size) 172 ≡ some bytes
        → read_slot sha256 m.boundary.journal_id page_size (next.generation % 2) file
          ≡ decode_slot sha256 m.boundary.journal_id page_size (next.generation % 2) bytes
    unfolding read_slot
    reads_bytes file bytes e = rw (e, read_slot) refl

    -- Files with the same slots give the same marker.
    same_slots :
        (file torn : File)
        → read_slot sha256 m.boundary.journal_id page_size (m.generation % 2) torn
          ≡ read_slot sha256 m.boundary.journal_id page_size (m.generation % 2) file
        → read_slot sha256 m.boundary.journal_id page_size (next.generation % 2) torn
          ≡ read_slot sha256 m.boundary.journal_id page_size (next.generation % 2) file
        → read_publication_marker sha256 torn m.boundary.journal_id page_size
          ≡ read_publication_marker sha256 file m.boundary.journal_id page_size
    unfolding read_publication_marker
    same_slots file torn one two =
        let P : ℕ → Type 0 = λ s.
          read_slot sha256 m.boundary.journal_id page_size s torn
          ≡ read_slot sha256 m.boundary.journal_id page_size s file in
        elim (parity m.generation) [
          | inl (even, odd) ↦ rw (subst P even one, subst P (next_odd odd) two) refl
          | inr (odd, even) ↦ rw (subst P (next_odd even) two, subst P odd one) refl
        ]

    -- The digest of a slot does not fit: it counts as absent.
    broken_slot :
        (bytes : List ℕ)
        → bytes_eq (sha256 (take 140 bytes)) (slice bytes 140 32) ≡ false
        → decode_slot sha256 m.boundary.journal_id page_size (next.generation % 2) bytes ≡ ok none
    unfolding decode_slot slot_is_sealed
    broken_slot bytes broken = elim (Bool-cases (bytes_eq (slice bytes 0 8) publication_magic)) [
      | inr e ↦ rw e refl
      | inl e ↦ elim (Bool-cases (bytes_eq (slice bytes 8 32) m.boundary.journal_id)) [
        | inr e' ↦ rw (e, e') refl
        | inl e' ↦ rw (e, e', broken) refl
      ]
    ]

    -- What the digest is there for: where the bytes of the slot fit their digest, they are those of
    -- `next` or what was there before.
    abbrev pub Tells : File → File → Type 0
    Tells file torn =
        (bytes : List ℕ)
        → read_exact_at torn (next.generation % 2 * publication_slot_size) 172 ≡ some bytes
        → bytes_eq (sha256 (take 140 bytes)) (slice bytes 140 32) ≡ true
        → (bytes ≡ encode_publication_marker sha256 next)
          ⊎ (read_exact_at file (next.generation % 2 * publication_slot_size) 172 ≡ some bytes)

    -- A file that holds the first of two such markers and gives it back, and a write of the second that
    -- stopped after any number of bytes, none and all included. If bytes of the slot that fit their digest
    -- are those of the second marker or those from before the write, as is expected of SHA-256, then
    -- recovery finds the first marker or the second.
    pub read_publication_marker_torn :
        (file : File) (k : ℕ)
        → Holds file m
        → read_publication_marker sha256 file m.boundary.journal_id page_size ≡ ok (stored m)
        → Tells file (
            write_all_at file
              (next.generation % 2 * publication_slot_size)
              (take k (encode_publication_marker sha256 next)))
        → (read_publication_marker sha256
              (write_all_at file
                (next.generation % 2 * publication_slot_size)
                (take k (encode_publication_marker sha256 next)))
              m.boundary.journal_id
              page_size
            ≡ ok (stored m))
          ⊎ (read_publication_marker sha256
                (write_all_at file
                  (next.generation % 2 * publication_slot_size)
                  (take k (encode_publication_marker sha256 next)))
                m.boundary.journal_id
                page_size
              ≡ ok (stored next))
    unfolding read_slot
    read_publication_marker_torn file k h before tells = by_bytes _ refl
      where
        torn : File
        torn =
            write_all_at file (next.generation % 2 * publication_slot_size)
              (take k (encode_publication_marker sha256 next))

        id : List ℕ
        id = m.boundary.journal_id

        held : read_slot sha256 id page_size (m.generation % 2) torn ≡ ok (some (stored m))
        held = read_slot-held sha256 digest_32 m tm page_size torn cm (
            other_slot file (take k (encode_publication_marker sha256 next))
              (omega (
                arith,
                length-take-le k (encode_publication_marker sha256 next),
                length-encode sha256 digest_32 next tn,
              ))
              h)

        absent :
            read_slot sha256 id page_size (next.generation % 2) torn ≡ ok none
            → read_publication_marker sha256 torn id page_size ≡ ok (stored m)
        absent none_there =
            recovered torn none held none_there (unfold choose in refl) (unfold choose in refl)

        by_bytes :
            (r : Option (List ℕ))
            → read_exact_at torn (next.generation % 2 * publication_slot_size) 172 ≡ r
            → (read_publication_marker sha256 torn id page_size ≡ ok (stored m))
              ⊎ (read_publication_marker sha256 torn id page_size ≡ ok (stored next))
        by_bytes none e = inl (absent (rw (e, read_slot) refl))
        by_bytes (some bytes) e =
            elim (Bool-cases (bytes_eq (sha256 (take 140 bytes)) (slice bytes 140 32))) [
              | inr broken ↦ inl (absent (rw (e, read_slot) (broken_slot bytes broken)))
              | inl fits ↦ elim (tells bytes e fits) [
                | inl whole ↦ inr (
                    recovered torn (some (stored next)) held
                      (subst
                        (λ (i : List ℕ).
                          read_slot sha256 i page_size (next.generation % 2) torn
                          ≡ ok (some (stored next)))
                        f.same_journal
                        (read_slot-held sha256 digest_32 next tn page_size torn cn
                          (e ∙ ap some whole)))
                      (choose-Follows m next f).0 (choose-Follows m next f).1)
                | inr old ↦ inl (
                    same_slots file torn
                      (held ∙ sym (read_slot-held sha256 digest_32 m tm page_size file cm h))
                      (reads_bytes torn bytes e ∙ sym (reads_bytes file bytes old))
                    ∙ before)
              ]
            ]
