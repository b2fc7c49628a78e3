-- ===== src/Merge/Files/Paths.antt =====
-- The branches of `three_way_merge` for one path, against the rule of a three-way merge.
use dit.Prelude.{
  ◌≡◌, refl, String, Option, none, some, Result, ok, opt_eq, if◌then◌else◌, arith, eq_iff,
}
use dit.Merge.{MergeResult}
use dit.Merge.Files.{
  ManifestStore, with_entry, merge_rows, ours_deleted, theirs_deleted, both_added, merge_known,
  merge_new, merge_path,
}

-- What to do with a path: keep a version (or none), or look at the contents.
pub data Verdict : Type 0 where
  keep : Option String → Verdict
  clash : Verdict

-- The rule: sides that agree win, and else the side that changed the base wins.
unfoldable pub verdict : Option String → Option String → Option String → Verdict
verdict b o t =
    if opt_eq o t
    then keep o
    else if opt_eq o b
    then keep t
    else if opt_eq t b
    then keep o
    else clash

module _ (store : ManifestStore) (path : String) (r : MergeResult) (s : store.State) where
  -- What the rule's verdict makes of the result; where the contents decide, by the versions there are.
  abbrev pub carried_out :
      Verdict → Option String → Option String → Option String → Result (MergeResult × store.State)
  carried_out (keep x) b o t = ok (with_entry r path x, s)
  carried_out clash (some b) (some o) (some t) =
      merge_rows store path r s (some b) (some o) (some t)
  carried_out clash (some b) none t = ours_deleted store path r s (some b) t
  carried_out clash (some b) (some o) none = theirs_deleted store path r s (some b) (some o)
  carried_out clash none o t = both_added store path r s o t

-- On every path, the branches of `three_way_merge` do what the rule says: a version that the rule keeps
-- becomes the entry, with nothing read or written and no conflict; and only where both sides have
-- changed the base, in different ways, are the contents read, for a merge of rows, or for a
-- conflict where a side has no file or the base has none.
pub merge_path-verdict :
    (store : ManifestStore) (path : String) (r : MergeResult) (s : store.State)
    (b o t : Option String)
    → merge_path store path r s b o t ≡ carried_out store path r s (verdict b o t) b o t
unfolding merge_path merge_known merge_new verdict
merge_path-verdict store path r s none none none = refl
merge_path-verdict store path r s none none (some t) = refl
merge_path-verdict store path r s none (some o) none = refl
merge_path-verdict store path r s none (some o) (some t) = ground arith
merge_path-verdict store path r s (some b) none none = refl
merge_path-verdict store path r s (some b) none (some t) = ground arith
merge_path-verdict store path r s (some b) (some o) none = ground arith
merge_path-verdict store path r s (some b) (some o) (some t) =
    ground (arith, eq_iff o t, eq_iff o b, eq_iff t b)
