-- ===== src/Diff/Correct.antt =====
-- The promises of `diff_manifests`.
use mathlib.Core.Bool.{false≢true}
use dit.Prelude.{
  ◌≡◌, refl, ap, sym, ◌∙◌, String, true, false, List, [], ◌∷◌, ok, has, ◌↔◌, arith, eq_iff, All,
  Bool-cases, inl, inr,
}
use dit.Objects.{ManifestEntry, Manifest, row_hashes, entries_eq, entries_eq→eq, entries_eq_self}
use dit.Diff.{DiffResult, Matching, is_unchanged, surface_order, diff_manifests}
use dit.Diff.Pairing.{IsRefresh, IsMatching}
use dit.Diff.Patch.{
  IsGone, IsNew, patched, report, raw_added, raw_removed, diff_lem, refreshed-surface_order,
  patched-report, patched-surface_order, has-mem, has-not_in, is_unchanged_lem,
}

-- `diff_manifests` never raises, and for every hash h: h is a row of the new manifest exactly when
-- it is a row of the old one that is neither reported as removed nor as refreshed away, or it is
-- reported as added or as the new hash of a refresh.
pub diff-patched :
    (old new : Manifest)
    → (r : DiffResult) × (diff_manifests old new ≡ ok r)
      × ((h : String) → patched old new r h ≡ has (row_hashes new.entries) h)
diff-patched old new =
    let (m, done, i) = diff_lem old new in
    (
      surface_order old new (report old new m),
      done,
      λ h. patched-surface_order old new (report old new m) h (patched-report old new m h i),
    )

-- Every reported refresh (o, n, q) comes from a row of the old manifest with hash o, which the new
-- one lacks, and a row of the new manifest with hash n, which the old one lacks, and both rows
-- have the fingerprint q.
pub diff-refreshed :
    (old new : Manifest) (r : DiffResult)
    → diff_manifests old new ≡ ok r
    → All (IsRefresh (IsGone old new) (IsNew old new)) r.refreshed
diff-refreshed old new r h =
    let (m, done, i) = diff_lem old new in
    let e : r.refreshed ≡ m.refreshed =
      cc (h, done, refreshed-surface_order old new (report old new m)) in
    rw e i.refreshes

abbrev pub unchanged : DiffResult
unchanged = record { added = []; removed = []; refreshed = [] }

nil_of_no_hash :
    (es : List ManifestEntry) → ((h : String) → has (row_hashes es) h ≡ false) → es ≡ []
unfolding row_hashes has
nil_of_no_hash [] f = refl
nil_of_no_hash (e ∷ es) f = ground (arith, f e.row_hash, eq_iff e.row_hash e.row_hash)

module _ (old new : Manifest) where
  no_refresh :
      (ts : List (String × String × String))
      → old.entries ≡ new.entries
      → All (IsRefresh (IsGone old new) (IsNew old new)) ts
      → ts ≡ []
  no_refresh [] e i = refl
  no_refresh (t ∷ ts) e ((o, n, go, gn, same, fo, fn), is) =
      absurd (false≢true (sym go.1 ∙ rw (← e) (has-mem old.entries go.0)))

  report_same :
      (m : Matching)
      → old.entries ≡ new.entries
      → IsMatching (IsGone old new) (IsNew old new) m
      → is_unchanged (report old new m) ≡ true
  report_same m e i =
      let a = nil_of_no_hash (report old new m).added (λ h.
        rw
          (
            has-not_in m.refreshed_new_hashes (raw_added old new) h,
            has-not_in (row_hashes old.entries) new.entries h,
            e,
          )
          (ground arith)) in
      let b = nil_of_no_hash (report old new m).removed (λ h.
        rw
          (
            has-not_in m.refreshed_old_hashes (raw_removed old new) h,
            has-not_in (row_hashes new.entries) old.entries h,
            e,
          )
          (ground arith)) in
      rw (a, b, no_refresh m.refreshed e i.refreshes)

  surface_order-unchanged :
      (r : DiffResult) → surface_order old new r ≡ unchanged → old.entries ≡ new.entries
  unfolding surface_order
  surface_order-unchanged r h = elim (Bool-cases (is_unchanged r)) [
    | inl same ↦ elim (Bool-cases (entries_eq old.entries new.entries)) [
      | inl e ↦ entries_eq→eq old.entries new.entries e
      | inr e ↦ ground (arith, h, same, e)
    ]
    | inr changed ↦ ground (arith, h, changed)
  ]

  surface_order_same :
      (r : DiffResult)
      → is_unchanged r ≡ true
      → old.entries ≡ new.entries
      → surface_order old new r ≡ unchanged
  unfolding surface_order
  surface_order_same r u e =
      let (a, b, c) = is_unchanged_lem r u in
      ground (arith, a, b, c, rw e at (entries_eq_self old.entries))

-- `diff_manifests` reports no change exactly when the two manifests have the same rows in the same
-- order.
pub diff-unchanged_iff :
    (old new : Manifest) → (diff_manifests old new ≡ ok unchanged) ↔ (old.entries ≡ new.entries)
diff-unchanged_iff old new =
    let (m, done, i) = diff_lem old new in
    (
      (λ h. surface_order-unchanged old new (report old new m) (cc (h, done))),
      (λ e.
          done
          ∙ ap ok (surface_order_same old new (report old new m) (report_same old new m e i) e)),
    )
