-- ===== src/Diff/NewRows.antt =====
-- The rows that a diff reports as added or as refreshed.
use dit.Prelude.{
  ◌≡◌, ◌⊎◌, ◌≢◌, String, Bool, true, false, not, ◌&&◌, ◌||◌, ok, has, arith, Bool-cases, inl, inr,
}
use dit.Objects.{Manifest, row_hashes, entries_eq, entries_eq_self}
use dit.Diff.{
  DiffResult, Matching, old_hashes, new_hashes, is_unchanged, surface_order, diff_manifests,
}
use dit.Diff.Pairing.{IsMatching}
use dit.Diff.Patch.{
  IsGone, IsNew, report, raw_added, diff_lem, patched-report, patched-surface_order, has-not_in,
  new_hashes_new, is_unchanged_lem,
}

abbrev pub reported : DiffResult → String → Bool
reported r h = has (row_hashes r.added) h || has (new_hashes r.refreshed) h

module _ (old new : Manifest) where
  -- Both have the same set of row hashes.
  abbrev pub SameRows : Type 0
  SameRows = (h : String) → has (row_hashes old.entries) h ≡ has (row_hashes new.entries) h

  -- The rows are the same, in another order, or another number of times, or with other fingerprints.
  abbrev pub Reorders : Type 0
  Reorders = SameRows × (old.entries ≢ new.entries)

  unchanged-SameRows :
      (m : Matching)
      → IsMatching (IsGone old new) (IsNew old new) m
      → is_unchanged (report old new m) ≡ true
      → SameRows
  unfolding has old_hashes new_hashes row_hashes
  unchanged-SameRows m i same h =
      let (a, r, f) = is_unchanged_lem (report old new m) same in
      let all = patched-report old new m h i in ground (arith, rw (a, r, f) at all)

  surface_order-reported :
      (m : Matching) (h : String)
      → IsMatching (IsGone old new) (IsNew old new) m
      → reported (surface_order old new (report old new m)) h ≡ true
      → (has (row_hashes old.entries) h ≡ false) ⊎ Reorders
  unfolding surface_order
  surface_order-reported m h i there =
      elim (Bool-cases
        (is_unchanged (report old new m) && not (entries_eq old.entries new.entries))) [
          | inl same ↦ inr (
            unchanged-SameRows m i (ground arith),
            λ e. ground (arith, same, rw e at same, entries_eq_self new.entries),
          )
          | inr changed ↦ inl (
              ground (
                arith,
                rw changed at there,
                has-not_in m.refreshed_new_hashes (raw_added old new) h,
                has-not_in (row_hashes old.entries) new.entries h,
                new_hashes_new old new m.refreshed h i.refreshes,
              ))
        ]

  -- What a diff reports as added or refreshed is in the new manifest, and not in the old one unless the
  -- new one only reorders; and what is in the new one and not reported is in the old one.
  pub diff-reported :
      (r : DiffResult) × (diff_manifests old new ≡ ok r)
      × ((h : String)
          → reported r h ≡ true
          → (has (row_hashes new.entries) h ≡ true)
            × ((has (row_hashes old.entries) h ≡ false) ⊎ Reorders))
      × ((h : String)
          → reported r h ≡ false
          → has (row_hashes new.entries) h ≡ true
          → has (row_hashes old.entries) h ≡ true)
  diff-reported =
      let (m, ran, i) = diff_lem old new in
      let all = λ (h : String).
        patched-surface_order old new (report old new m) h (patched-report old new m h i) in
      (
        surface_order old new (report old new m),
        ran,
        (λ h there. (ground (arith, there, all h), surface_order-reported m h i there)),
        (λ h absent new_. ground (arith, absent, new_, all h)),
      )
