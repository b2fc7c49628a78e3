-- ===== src/Merge/Rows/Correct.antt =====
-- The promises of `merge_manifests`, for rows with and without fingerprints.
use mathlib.Core.List.{Mem}
use dit.Prelude.{
  ◌≡◌, ◌≢◌, ◌⊎◌, String, true, false, some, List, [], ◌++◌, ok, has, has-append, has-to_set,
  Distinct, All, All-map, arith,
}
use dit.Prelude.Dict
use dit.Prelude.Dict.{Dict, has-keys}
use dit.Objects.{ManifestEntry, Manifest, row_hashes}
use dit.Merge.{MergeConflict}
use dit.Merge.Rows.{by_qfp, both_modified, build, merge_manifests}
use dit.Merge.Rows.Refreshes.{get-refreshes}
use dit.Merge.Rows.Conflicts.{IsClash}
use dit.Merge.Rows.Sources.{
  base_by, ours_by, theirs_by, or, tr, base_by-Distinct, or_inv, tr_inv, qfps, resolved, build-rows,
  merged_lem,
}

-- The base's last row b of the fingerprint q is on neither side, and each side has another row of that
-- fingerprint, with different hashes; o and t are the last such rows.
pub record IsRowClash (base ours theirs : Manifest) (q : String) (b o t : ManifestEntry)
    : Type 0 where
  pub of_base : Dict.get (by_qfp [] base.entries) q ≡ some b
  pub of_ours : Dict.get (by_qfp [] ours.entries) q ≡ some o
  pub of_theirs : Dict.get (by_qfp [] theirs.entries) q ≡ some t
  pub not_ours : has (row_hashes ours.entries) b.row_hash ≡ false
  pub not_theirs : has (row_hashes theirs.entries) b.row_hash ≡ false
  pub differ : o.row_hash ≢ t.row_hash

abbrev pub IsRowConflict : Manifest → Manifest → Manifest → String → MergeConflict → Type 0
IsRowConflict base ours theirs path c =
    (q : String) × (b : ManifestEntry) × (o : ManifestEntry) × (t : ManifestEntry) × IsRowClash base
      ours theirs q b o t
    × (c ≡ both_modified path b o t)

module _ (base ours theirs : Manifest) (path : String) where
  clash→row :
      (q : String) (b o t : ManifestEntry)
      → IsClash path
          (base_by base ours theirs path)
          (or base ours theirs path)
          (tr base ours theirs path)
          q
          b
          o
          t
      → IsRowClash base ours theirs q b o t
  clash→row q b o t c =
      let (b₁, fb₁, gone₁, fo) = or_inv base ours theirs path q o c.of_ours in
      let (b₂, fb₂, gone₂, ft) = tr_inv base ours theirs path q t c.of_theirs in
      let e₁ : b₁ ≡ b = cc fb₁ in
      let e₂ : b₂ ≡ b = cc fb₂ in
      record {
        of_base = c.of_base;
        of_ours = fo;
        of_theirs = ft;
        not_ours = rw e₁ at gone₁;
        not_theirs = rw e₂ at gone₂;
        differ = c.differ;
      }

  row→clash :
      (q : String) (b o t : ManifestEntry)
      → IsRowClash base ours theirs q b o t
      → IsClash path
          (base_by base ours theirs path)
          (or base ours theirs path)
          (tr base ours theirs path)
          q
          b
          o
          t
  row→clash q b o t c = record {
    of_base = c.of_base;
    of_ours = ground (
      arith,
      c.of_base,
      c.not_ours,
      c.of_ours,
      get-refreshes (row_hashes ours.entries) (ours_by base ours theirs path)
          (base_by base ours theirs path) q (base_by-Distinct base ours theirs path),
    );
    of_theirs = ground (
      arith,
      c.of_base,
      c.not_theirs,
      c.of_theirs,
      get-refreshes (row_hashes theirs.entries) (theirs_by base ours theirs path)
          (base_by base ours theirs path) q (base_by-Distinct base ours theirs path),
    );
    differ = c.differ;
  }

  in_qfps :
      (q : String) (b o t : ManifestEntry)
      → IsClash path
          (base_by base ours theirs path)
          (or base ours theirs path)
          (tr base ours theirs path)
          q
          b
          o
          t
      → has (qfps base ours theirs path) q ≡ true
  in_qfps q b o t c = ground (
    arith,
    has-to_set (Dict.keys (or base ours theirs path) ++ Dict.keys (tr base ours theirs path)) q,
    has-append (Dict.keys (or base ours theirs path)) (Dict.keys (tr base ours theirs path)) q,
    has-keys (or base ours theirs path) q,
    c.of_ours,
  )

-- `merge_manifests` never raises; whatever the conflicts, no hash occurs twice among the merged rows,
-- and each of them is a row of `ours` or of `theirs`.
pub merge_manifests-rows :
    (base ours theirs : Manifest) (path : String)
    → (merged : List ManifestEntry) × (conflicts : List MergeConflict) × (merge_manifests base ours
          theirs path
        ≡ ok (merged, conflicts))
      × Distinct (row_hashes merged)
      × All (λ e. Mem e ours.entries ⊎ Mem e theirs.entries) merged
merge_manifests-rows base ours theirs path =
    let (s, done, r, keeps, found) = resolved base ours theirs path in
    let (distinct, sources) = build-rows base ours theirs path s r in
    (
      build base ours theirs (or base ours theirs path) (tr base ours theirs path) s,
      s.conflicts,
      merged_lem base ours theirs path s done,
      distinct,
      sources,
    )

-- The conflicts that `merge_manifests` returns are exactly the row clashes: each of them is the
-- conflict of a fingerprint whose base row both sides have replaced by different rows, and each
-- such fingerprint has its conflict.
pub merge_manifests-conflicts :
    (base ours theirs : Manifest) (path : String) (merged : List ManifestEntry)
    (conflicts : List MergeConflict)
    → merge_manifests base ours theirs path ≡ ok (merged, conflicts)
    → All (IsRowConflict base ours theirs path) conflicts
      × ((q : String) (b o t : ManifestEntry)
          → IsRowClash base ours theirs q b o t
          → Mem (both_modified path b o t) conflicts)
merge_manifests-conflicts base ours theirs path merged conflicts h =
    let (s, done, r, keeps, found) = resolved base ours theirs path in
    let e : s.conflicts ≡ conflicts = cc (h, merged_lem base ours theirs path s done) in
    (
      rw (← e) (
          All-map _ _
            (λ c (q, b, o, t, clash, same).
              (q, b, o, t, clash→row base ours theirs path q b o t clash, same))
            s.conflicts r.genuine),
      λ q b o t clash.
          let c = row→clash base ours theirs path q b o t clash in
          rw e at (found q b o t (in_qfps base ours theirs path q b o t c) c),
    )
