-- ===== src/Journal/Record/Plan.antt =====
-- src/forest_journal.rs: `align_up` and the checked additions of `write_record`.
use native.Mathlib.Nat.{mod-add-div', mod-lt, mul-mod_left, add-mod, zero-mod}
use rpc_utreexo_bridge.Base.{
  ℕ, ◌+◌, ◌-◌, ◌*◌, ◌/◌, ◌%◌, ◌^◌, ◌≤◌, ◌<◌, ◌≡◌, ap, ◌∙◌, sym, some, arith, ok, ok_or, >>=-eq-ok,
  Option, none, checked_add, length,
}
use rpc_utreexo_bridge.Journal.Record.Disk.{
  align_up, plan_record, record_header_size, record_trailer,
}

pub checked_add-eq-some :
    (a b : ℕ) {s : ℕ} → checked_add a b ≡ some s → (s ≡ a + b) × (a + b < 2 ^ 64)
unfolding checked_add
checked_add-eq-some a b h = ground arith

-- The result of `align_up` is the least multiple of the alignment that is not below the value.
pub align_up-eq-some :
    (value alignment : ℕ) {s : ℕ}
    → align_up value alignment ≡ some s
    → (0 < alignment) × (value ≤ s) × (s < value + alignment) × (s % alignment ≡ 0)
unfolding align_up checked_add
align_up-eq-some value alignment {s} h =
    let padded = value + (alignment - 1) in
    let positive : 0 < alignment = ground arith in
    let rounded : s ≡ padded / alignment * alignment = ground arith in
    let split = mod-add-div' padded alignment in
    let small = mod-lt padded positive in
    (
      positive,
      omega (arith, rounded, split, small),
      omega (arith, rounded, split, small),
      ap (λ (x : ℕ). x % alignment) rounded ∙ mul-mod_left (padded / alignment) alignment,
    )

pub aligned-add : (m n page : ℕ) → m % page ≡ 0 → n % page ≡ 0 → (m + n) % page ≡ 0
aligned-add m n page hm hn = add-mod m n page ∙ rw (hm, hn) (zero-mod page)

ok_or-eq-ok {ℓ} :
    {E : Type 0} {A : Type ℓ} (o : Option A) (e : E) {a : A} → ok_or o e ≡ ok a → o ≡ some a
ok_or-eq-ok none e h = cc
ok_or-eq-ok (some b) e h = cc

pub plan_record-eq-ok :
    (page_size offset n span end : ℕ)
    → plan_record page_size offset n ≡ ok (span, end)
    → (align_up (record_header_size + n + 8) page_size ≡ some span)
      × (end ≡ offset + span)
      × (offset + span < 2 ^ 64)
unfolding plan_record
plan_record-eq-ok page_size offset n span end h =
    let (body, b, h1) = >>=-eq-ok (ok_or (checked_add record_header_size n) _) _ h in
    let (used, u, h2) = >>=-eq-ok (ok_or (checked_add body (length record_trailer)) _) _ h1 in
    let (s, a, h3) = >>=-eq-ok (ok_or (align_up used page_size) _) _ h2 in
    let (e, f, h4) = >>=-eq-ok (ok_or (checked_add offset s) _) _ h3 in
    let sum = (checked_add-eq-some record_header_size n (ok_or-eq-ok _ _ b)).0 in
    let total = (checked_add-eq-some body (length record_trailer) (ok_or-eq-ok _ _ u)).0 in
    let (last, fits) = checked_add-eq-some offset s (ok_or-eq-ok _ _ f) in
    let same : s ≡ span = cc h4 in
    let stop : e ≡ end = cc h4 in
    let size : used ≡ record_header_size + n + 8 = omega (arith, sum, total) in
    (
      ap (λ (x : ℕ). align_up x page_size) (sym size) ∙ ok_or-eq-ok _ _ a ∙ ap some same,
      omega (arith, last, same, stop),
      omega (arith, fits, same),
    )
