-- ===== src/Merge/Rows/Sources.antt =====
-- Where the rows of a merge come from, and that its lookups succeed.
use mathlib.Core.List.{Mem, mem-cons_self, mem-cons_of_mem}
use dit.Prelude.{
  ◌≡◌, ◌⊎◌, refl, ◌∙◌, sym, String, true, false, Option, none, some, List, [], ◌∷◌, ◌++◌, ok, has,
  to_set, Distinct, All, All-append, arith, Bool-cases, Option-cases, inl, inr,
}
use dit.Prelude.Dict
use dit.Prelude.Dict.{Dict, has-keys}
use dit.Objects.{ManifestEntry, Manifest, row_hashes, fingerprint}
use dit.Merge.{MergeConflict}
use dit.Merge.Rows.{
  by_qfp, refreshes, Resolution, unresolved, both_modified, resolve, Merged, add_row, winner, build,
  merge_manifests,
}
use dit.Merge.Rows.Loop.{
  filter-keeps, add_rows_induction, keep_rows_induction, IsMerged, add_row-IsMerged,
}
use dit.Merge.Rows.Plain.{IsMerged-nil}
use dit.Merge.Rows.Refreshes.{by_qfp_sound, by_qfp-Distinct, refresh_of, get-refreshes}
use dit.Merge.Rows.Conflicts.{IsClash, IsResolved, resolve_lem}

pub All-mem :
    {P : ManifestEntry → Type 0} (es : List ManifestEntry)
    → ((e : ManifestEntry) → Mem e es → P e)
    → All P es
All-mem [] f = tt
All-mem (x ∷ xs) f = (f x mem-cons_self, All-mem xs (λ e m. f e (mem-cons_of_mem x m)))

-- A row that a side refreshes: the side lacks the base row and has another of its fingerprint.
pub refresh_of_inv :
    (side : List String) (by : Dict ManifestEntry) (b : Option ManifestEntry) (q : String)
    (e : ManifestEntry)
    → refresh_of side by b q ≡ some e
    → (x : ManifestEntry) × (b ≡ some x) × (has side x.row_hash ≡ false) × (Dict.get by q ≡ some e)
refresh_of_inv side by none q e h = cc
refresh_of_inv side by (some b) q e h = (b, refl, ground arith, ground arith)

module _ (base ours theirs : Manifest) (path : String) where
  abbrev pub base_by : Dict ManifestEntry
  base_by = by_qfp [] base.entries

  abbrev pub ours_by : Dict ManifestEntry
  ours_by = by_qfp [] ours.entries

  abbrev pub theirs_by : Dict ManifestEntry
  theirs_by = by_qfp [] theirs.entries

  abbrev pub or : Dict ManifestEntry
  or = refreshes (row_hashes ours.entries) ours_by [] base_by

  abbrev pub tr : Dict ManifestEntry
  tr = refreshes (row_hashes theirs.entries) theirs_by [] base_by

  -- A row of `ours` or of `theirs`.
  abbrev pub IsSource : ManifestEntry → Type 0
  IsSource e = Mem e ours.entries ⊎ Mem e theirs.entries

  pub base_by-Distinct : Distinct (Dict.keys base_by)
  unfolding Dict.keys
  base_by-Distinct = by_qfp-Distinct [] base.entries tt

  pub or_inv :
      (q : String) (o : ManifestEntry)
      → Dict.get or q ≡ some o
      → (b : ManifestEntry) × (Dict.get base_by q ≡ some b)
        × (has (row_hashes ours.entries) b.row_hash ≡ false)
        × (Dict.get ours_by q ≡ some o)
  or_inv q o h =
      refresh_of_inv (row_hashes ours.entries) ours_by (Dict.get base_by q) q o
        (sym (get-refreshes (row_hashes ours.entries) ours_by base_by q base_by-Distinct) ∙ h)

  pub tr_inv :
      (q : String) (t : ManifestEntry)
      → Dict.get tr q ≡ some t
      → (b : ManifestEntry) × (Dict.get base_by q ≡ some b)
        × (has (row_hashes theirs.entries) b.row_hash ≡ false)
        × (Dict.get theirs_by q ≡ some t)
  tr_inv q t h =
      refresh_of_inv (row_hashes theirs.entries) theirs_by (Dict.get base_by q) q t
        (sym (get-refreshes (row_hashes theirs.entries) theirs_by base_by q base_by-Distinct) ∙ h)

  pub by-source :
      (es : List ManifestEntry)
      → All IsSource es
      → (q : String) (e : ManifestEntry) → Dict.get (by_qfp [] es) q ≡ some e
      → IsSource e
  unfolding Dict.get
  by-source es h q e found = (by_qfp_sound IsSource [] es (λ j x c. cc) h q e found).1

  pub ours_sources : All IsSource ours.entries
  ours_sources = All-mem ours.entries (λ e m. inl m)

  pub theirs_sources : All IsSource theirs.entries
  theirs_sources = All-mem theirs.entries (λ e m. inr m)

  pub known :
      (q : String) (o : ManifestEntry)
      → Dict.get or q ≡ some o
      → (b : ManifestEntry) × (Dict.get base_by q ≡ some b)
  known q o h = let (b, found, gone, there) = or_inv q o h in (b, found)

  pub or_source : (q : String) (o : ManifestEntry) → Dict.get or q ≡ some o → IsSource o
  or_source q o h =
      let (b, found, gone, there) = or_inv q o h in by-source ours.entries ours_sources q o there

  pub tr_source : (q : String) (t : ManifestEntry) → Dict.get tr q ≡ some t → IsSource t
  tr_source q t h =
      let (b, found, gone, there) = tr_inv q t h in
      by-source theirs.entries theirs_sources q t there

  abbrev pub qfps : List String
  qfps = to_set (Dict.keys or ++ Dict.keys tr)

  pub unresolved-IsResolved :
      IsResolved path base_by or tr IsSource known or_source tr_source unresolved
  unfolding Dict.get
  unresolved-IsResolved = record { genuine = tt; winners = λ q e found. cc }

  pub resolved :
      (s : Resolution) × (resolve path base_by or tr unresolved qfps ≡ ok s)
      × IsResolved path base_by or tr IsSource known or_source tr_source s
      × ((c : MergeConflict) → Mem c [] → Mem c s.conflicts)
      × ((q : String) (b o t : ManifestEntry)
          → has qfps q ≡ true
          → IsClash path base_by or tr q b o t
          → Mem (both_modified path b o t) s.conflicts)
  resolved =
      resolve_lem path base_by or tr IsSource known or_source tr_source unresolved qfps
        unresolved-IsResolved

  pub add_row-source :
      (m : Merged) (e : ManifestEntry)
      → IsSource e
      → All IsSource m.rows
      → All IsSource (add_row m e).rows
  unfolding add_row
  add_row-source m e q h = elim (Bool-cases (has m.seen_hashes e.row_hash)) [
    | inl old ↦ rw (old, add_row) h
    | inr new ↦ rw (new, add_row) (All-append IsSource m.rows (e ∷ []) h (q, tt))
  ]

  -- What the building loops keep from their start on, the merged rows have.
  pub build_induction :
      (P : Merged → Type 0)
      → ((m : Merged) (e : ManifestEntry) → IsSource e → P m → P (add_row m e))
      → (s : Resolution) → IsResolved path base_by or tr IsSource known or_source tr_source s
      → P (record { rows = []; seen_hashes = [] })
      → (m : Merged) × P m × (build base ours theirs or tr s ≡ m.rows)
  unfolding build winner
  build_induction P add s r start = (
    _,
    add_rows_induction P IsSource add _ _ (filter-keeps IsSource _ theirs.entries theirs_sources) (
        keep_rows_induction P IsSource add _ (λ e x won. winner_source e x won) _ ours.entries
          ours_sources start),
    refl,
  )
    where
      winner_source : (e x : ManifestEntry) → winner s.refresh_resolved e ≡ some x → IsSource x
      winner_source e x won = elim (Option-cases (fingerprint e)) [
        | inl absent ↦ cc (rw (absent, winner) at won)
        | inr (q, fp) ↦ r.winners q x (rw (fp, winner) at won)
      ]

  pub build-rows :
      (s : Resolution)
      → IsResolved path base_by or tr IsSource known or_source tr_source s
      → Distinct (row_hashes (build base ours theirs or tr s))
        × All IsSource (build base ours theirs or tr s)
  build-rows s r =
      let (m, i, e) =
        build_induction IsMerged (λ x y q h. add_row-IsMerged x y tt h) s r IsMerged-nil in
      let (m', i', e') = build_induction (λ x. All IsSource x.rows) add_row-source s r tt in
      (rw e i.distinct, rw e' i')

  pub merged_lem :
      (s : Resolution)
      → resolve path base_by or tr unresolved qfps ≡ ok s
      → merge_manifests base ours theirs path ≡ ok (build base ours theirs or tr s, s.conflicts)
  unfolding merge_manifests
  merged_lem s e = rw e
