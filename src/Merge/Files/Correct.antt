-- ===== src/Merge/Files/Correct.antt =====
-- The files of a merge, path by path.
use mathlib.Core.Path.{subst}
use dit.Prelude.{
  ◌≡◌, ◌≢◌, ◌⊎◌, refl, sym, ◌∙◌, ap, String, true, false, Option, none, some, List, [], ◌∷◌, ◌++◌,
  ◌==◌, ◌||◌, Result, first_ok, ok, is_some, has, has-append, has-to_set, to_set, arith, eq_iff,
  inl, inr, Bool-cases, eq_of_test,
}
use dit.Prelude.Dict
use dit.Prelude.Dict.{Dict, get-put, has-keys}
use dit.Merge.{MergeResult}
use dit.Merge.Rows.{merge_manifests}
use dit.Merge.Files.{
  ManifestStore, with_entry, insert_path, sort_paths, all_paths, read_at, merge_rows, ours_deleted,
  theirs_deleted, both_added, merge_path, merge_paths, merge_files,
}
use dit.Merge.Files.Paths.{Verdict, keep, clash, verdict, carried_out, merge_path-verdict}

has-insert_path :
    (p : String) (ps : List String) (x : String) → has (insert_path p ps) x ≡ (p == x || has ps x)
unfolding insert_path has
has-insert_path p [] x = refl
has-insert_path p (q ∷ qs) x = ground (arith, has-insert_path p qs x)

has-sort_paths : (ps : List String) (x : String) → has (sort_paths ps) x ≡ has ps x
unfolding sort_paths has
has-sort_paths [] x = refl
has-sort_paths (p ∷ ps) x = ground (arith, has-insert_path p (sort_paths ps) x, has-sort_paths ps x)

-- A path is visited exactly when one of the commits has it.
has-all_paths :
    (base ours theirs : Dict String) (x : String)
    → has (all_paths base ours theirs) x
      ≡ (is_some (Dict.get base x) || (is_some (Dict.get ours x) || is_some (Dict.get theirs x)))
unfolding all_paths
has-all_paths base ours theirs x = ground (
  arith,
  has-sort_paths (to_set (Dict.keys base ++ (Dict.keys ours ++ Dict.keys theirs))) x,
  has-to_set (Dict.keys base ++ (Dict.keys ours ++ Dict.keys theirs)) x,
  has-append (Dict.keys base) (Dict.keys ours ++ Dict.keys theirs) x,
  has-append (Dict.keys ours) (Dict.keys theirs) x,
  has-keys base x,
  has-keys ours x,
  has-keys theirs x,
)

abbrev pub entry : MergeResult → String → Option String
entry r p = Dict.get r.merged_tree_entries p

entry-with_entry :
    (r : MergeResult) (path p : String) (x : Option String)
    → path ≢ p
    → entry (with_entry r path x) p ≡ entry r p
entry-with_entry r path p none h = refl
entry-with_entry r path p (some h') h =
    ground (arith, get-put r.merged_tree_entries path p h', eq_iff path p, h)

entry-with_entry_self :
    (r : MergeResult) (p : String) (x : Option String)
    → (entry r p ≡ none) ⊎ (entry r p ≡ x)
    → entry (with_entry r p x) p ≡ x
entry-with_entry_self r p none h = ground (arith, h)
entry-with_entry_self r p (some h') h =
    ground (arith, get-put r.merged_tree_entries p p h', eq_iff p p)

module _ (store : ManifestStore) where
  -- A path leaves the entries of the others.
  carried_out-other :
      (path p : String) (r r' : MergeResult) (s s' : store.State) (v : Verdict)
      (b o t : Option String)
      → path ≢ p
      → carried_out store path r s v b o t ≡ ok (r', s')
      → entry r' p ≡ entry r p
  unfolding merge_rows read_at ours_deleted theirs_deleted both_added
  carried_out-other path p r r' s s' (keep x) b o t h e =
      ground (arith, e, entry-with_entry r path p x h)
  carried_out-other path p r r' s s' clash (some b) (some o) (some t) h e =
      let (bm, e₁, f₁) = first_ok (store.read s b) _ e in
      let (om, e₂, f₂) = first_ok (store.read s o) _ f₁ in
      let (tm, e₃, f₃) = first_ok (store.read s t) _ f₂ in
      let ((rows, cs), e₄, f₄) = first_ok (merge_manifests bm om tm path) _ f₃ in
      let ((k, s₂), e₅, f₅) = first_ok (store.write s (record { entries = rows })) _ f₄ in
      ground (arith, f₅, get-put r.merged_tree_entries path p k, eq_iff path p, h)
  carried_out-other path p r r' s s' clash (some b) none t h e = ground arith
  carried_out-other path p r r' s s' clash (some b) (some o) none h e = ground arith
  carried_out-other path p r r' s s' clash none o t h e = ground arith

  module _ (base ours theirs : Dict String) where
    abbrev verdict_at : String → Verdict
    verdict_at p = verdict (Dict.get base p) (Dict.get ours p) (Dict.get theirs p)

    abbrev carried_out_at : String → MergeResult → store.State → Result (MergeResult × store.State)
    carried_out_at p r s =
        carried_out store p r s (verdict_at p) (Dict.get base p) (Dict.get ours p)
          (Dict.get theirs p)

    visited :
        (r r₁ : MergeResult) (s s₁ : store.State) (p : String) (x : Option String)
        → verdict_at p ≡ keep x
        → (entry r p ≡ none) ⊎ (entry r p ≡ x)
        → carried_out_at p r s ≡ ok (r₁, s₁)
        → entry r₁ p ≡ x
    visited r r₁ s s₁ p x v before step =
        let step' : ◌≡◌ {A = Result (MergeResult × store.State)} (ok (with_entry r p x, s))
            (ok (r₁, s₁)) =
          rw v at step in
        let e : with_entry r p x ≡ r₁ = cc in
        sym (ap (λ u. entry u p) e) ∙ entry-with_entry_self r p x before

    -- Until `p` is visited its entry is absent; then it is what the rule keeps.
    merge_paths-keep :
        (r r' : MergeResult) (s s' : store.State) (ps : List String) (p : String)
        (x : Option String)
        → merge_paths store base ours theirs r s ps ≡ ok (r', s')
        → verdict_at p ≡ keep x
        → (entry r p ≡ none) ⊎ (entry r p ≡ x)
        → (entry r p ≡ x) ⊎ (has ps p ≡ true)
        → entry r' p ≡ x
    unfolding merge_paths has
    merge_paths-keep r r' s s' [] p x run v before which = ground (arith, run, which)
    merge_paths-keep r r' s s' (q ∷ qs) p x run v before which =
        let ((r₁, s₁), step, rest) =
          first_ok (merge_path store q r s (Dict.get base q) (Dict.get ours q) (Dict.get theirs q))
            _ run in
        let step' =
          sym
            (merge_path-verdict store q r s (Dict.get base q) (Dict.get ours q) (Dict.get theirs q))
          ∙ step in
        elim (Bool-cases (q == p)) [
          | inl same ↦
              let e : entry r₁ p ≡ x =
                visited r r₁ s s₁ p x v before
                  (subst (λ u. carried_out_at u r s ≡ ok (r₁, s₁)) (eq_of_test q p same) step') in
              merge_paths-keep r₁ r' s₁ s' qs p x rest v (inr e) (inl e)
          | inr other ↦
              let e : entry r₁ p ≡ entry r p =
                carried_out-other q p r r₁ s s₁ (verdict_at q) (Dict.get base q) (Dict.get ours q)
                  (Dict.get theirs q) (λ c. ground (arith, eq_iff q p, other, c)) step' in
              merge_paths-keep r₁ r' s₁ s' qs p x rest v (rw e before) (ground arith)
        ]

conflicts-with_entry :
    (r : MergeResult) (p : String) (x : Option String) → (with_entry r p x).conflicts ≡ r.conflicts
conflicts-with_entry r p none = refl
conflicts-with_entry r p (some h) = refl

module _ (store : ManifestStore) (base ours theirs : Dict String) (wanted : String → Option String)
    (v : (p : String)
      → verdict (Dict.get base p) (Dict.get ours p) (Dict.get theirs p) ≡ keep (wanted p)) where
  merge_paths_clean :
      (r : MergeResult) (s : store.State) (ps : List String)
      → (r' : MergeResult) × (merge_paths store base ours theirs r s ps ≡ ok (r', s))
        × (r'.conflicts ≡ r.conflicts)
  unfolding merge_paths
  merge_paths_clean r s [] = (r, refl, refl)
  merge_paths_clean r s (p ∷ ps) =
      let (r', rest, same) = merge_paths_clean (with_entry r p (wanted p)) s ps in
      let step : merge_path store p r s (Dict.get base p) (Dict.get ours p) (Dict.get theirs p)
          ≡ ok (with_entry r p (wanted p), s) =
        merge_path-verdict store p r s (Dict.get base p) (Dict.get ours p) (Dict.get theirs p)
        ∙ rw (v p) in
      (r', rw step rest, same ∙ conflicts-with_entry r p (wanted p))

keep-absent :
    (b o t x : Option String)
    → (is_some b || (is_some o || is_some t)) ≡ false
    → verdict b o t ≡ keep x
    → none ≡ x
unfolding verdict
keep-absent none none none x h v = cc
keep-absent (some b) o t x h v = cc
keep-absent none (some o) t x h v = cc
keep-absent none none (some t) x h v = cc

merge_files_clean :
    (store : ManifestStore) (base ours theirs : Dict String) (s : store.State)
    (wanted : String → Option String)
    → ((p : String)
        → verdict (Dict.get base p) (Dict.get ours p) (Dict.get theirs p) ≡ keep (wanted p))
    → (r : MergeResult) × (merge_files store base ours theirs s ≡ ok (r, s)) × (r.conflicts ≡ [])
unfolding merge_files
merge_files_clean store base ours theirs s wanted v =
    merge_paths_clean store base ours theirs wanted v
      (record { merged_tree_entries = []; conflicts = [] }) s (all_paths base ours theirs)

-- Where `three_way_merge` returns, a path whose versions the rule of a three-way merge decides has the
-- version of the rule in the merged files, or is absent where the rule keeps none, whatever happened
-- at the other paths.
pub merge_files-keep :
    (store : ManifestStore) (base ours theirs : Dict String) (r' : MergeResult) (s s' : store.State)
    (p : String) (x : Option String)
    → merge_files store base ours theirs s ≡ ok (r', s')
    → verdict (Dict.get base p) (Dict.get ours p) (Dict.get theirs p) ≡ keep x
    → entry r' p ≡ x
unfolding merge_files
merge_files-keep store base ours theirs r' s s' p x run v =
    merge_paths-keep store base ours theirs (record { merged_tree_entries = []; conflicts = [] }) r'
      s s' (all_paths base ours theirs) p x run v (inl (unfold Dict.get in refl))
      (elim (Bool-cases (has (all_paths base ours theirs) p)) [
        | inl there ↦ inr there
        | inr absent ↦ inl (
            unfold Dict.get in
            keep-absent (Dict.get base p) (Dict.get ours p) (Dict.get theirs p) x
              (sym (has-all_paths base ours theirs p) ∙ absent) v)
      ])

-- If the rule of a three-way merge decides every path, then the loop over the paths, which is what
-- `three_way_merge` does once it has loaded the three maps of manifests, returns, reports no conflict,
-- leaves the store as it was, and its files are exactly those that the rule keeps.
pub merge_files-clean :
    (store : ManifestStore) (base ours theirs : Dict String) (s : store.State)
    (wanted : String → Option String)
    → ((p : String)
        → verdict (Dict.get base p) (Dict.get ours p) (Dict.get theirs p) ≡ keep (wanted p))
    → (r : MergeResult) × (merge_files store base ours theirs s ≡ ok (r, s))
      × (r.conflicts ≡ [])
      × ((p : String) → entry r p ≡ wanted p)
merge_files-clean store base ours theirs s wanted v =
    let (r, run, none_found) = merge_files_clean store base ours theirs s wanted v in
    (r, run, none_found, λ p. merge_files-keep store base ours theirs r s s p (wanted p) run (v p))
