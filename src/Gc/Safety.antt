-- ===== src/Gc/Safety.antt =====
-- Garbage collection keeps what a ref or the index needs.
use dit.Prelude.{
  ap, ℕ, ◌≡◌, sym, String, Bool, true, false, not, some, List, [], ◌∷◌, ◌==◌, ◌||◌, ok, has, filter,
  arith, Bool-cases, inl, inr, eq_of_test,
}
use mathlib.Core.Path.{subst}
use dit.Prelude.Dict.{Dict}
use dit.Walker.{
  commit, tree, manifest, Item, Found, nothing_found, seen, Contents, Objects, contents,
}
use dit.Walker.Reachable.{Reach, IsCollected, seen-Reach, walk_commit_objects-IsWalk}
use dit.Gc.{GcResult, File, Disk, mark_refs, mark_index, collect_live_set, sweep_type, sweep, gc}
use dit.Gc.Sweep.{goes, sweep_files-filter}
use dit.Gc.LiveSet.{Grows-trans, then_run_ok, has_entry, mark_refs-walk, mark_index-Grows}

unfoldable pub has_file : List File → String → Bool
has_file [] h = false
has_file (f ∷ fs) h = f.name == h || has_file fs h

-- What was there under a hash is there still.
abbrev pub Kept : List File → List File → String → Type 0
Kept fs fs' h = has_file fs h ≡ true → has_file fs' h ≡ true

abbrev pub files_of : Disk → Item → List File
files_of disk (commit, h) = disk.commits
files_of disk (tree, h) = disk.trees
files_of disk (manifest, h) = disk.manifests

module _ (now grace_seconds : ℕ) (dry_run : Bool) where
  filter-Kept :
      (live : List String) (fs : List File) (h : String)
      → has live h ≡ true
      → Kept fs (filter (λ f. not (goes now grace_seconds dry_run live f)) fs) h
  unfolding filter has_file goes
  filter-Kept live [] h alive there = cc
  filter-Kept live (f ∷ fs) h alive there = elim (Bool-cases (f.name == h)) [
    | inl same ↦
        let k : has live f.name ≡ true =
          subst (λ u. has live u ≡ true) (sym (eq_of_test f.name h same)) alive in
        rw k (ground (arith, same))
    | inr other ↦ elim (Bool-cases (goes now grace_seconds dry_run live f)) [
      | inl gone ↦ rw gone (filter-Kept live fs h alive (ground arith))
      | inr stays ↦ rw stays (ground (arith, filter-Kept live fs h alive))
    ]
  ]

  sweep_type-Kept :
      (obj_type : String) (live : List String) (r : GcResult) (fs : List File) (h : String)
      → has live h ≡ true
      → Kept fs (sweep_type now grace_seconds dry_run obj_type live r fs).1 h
  unfolding sweep_type
  sweep_type-Kept obj_type live r fs h alive =
      rw (sweep_files-filter now grace_seconds dry_run obj_type live _ fs)
        (filter-Kept live fs h alive)

  sweep_items-Kept :
      (disk : Disk) (live : Found) (x : Item)
      → seen live x ≡ true
      → Kept (files_of disk x) (files_of (sweep now grace_seconds dry_run disk live).1 x) x.1
  unfolding sweep
  sweep_items-Kept disk live (commit, h) alive =
      sweep_type-Kept "commits" live.commits _ disk.commits h alive
  sweep_items-Kept disk live (tree, h) alive =
      sweep_type-Kept "trees" live.trees _ disk.trees h alive
  sweep_items-Kept disk live (manifest, h) alive =
      sweep_type-Kept "manifests" live.manifests _ disk.manifests h alive

  -- A sweep keeps what is in the live set.
  sweep-Kept :
      (disk : Disk) (live : Found)
      → ((x : Item)
          → seen live x ≡ true
          → Kept (files_of disk x) (files_of (sweep now grace_seconds dry_run disk live).1 x) x.1)
        × ((h : String)
            → has live.rows h ≡ true
            → Kept disk.rows (sweep now grace_seconds dry_run disk live).1.rows h)
        × ((h : String)
            → has live.sidecars h ≡ true
            → Kept disk.sidecars (sweep now grace_seconds dry_run disk live).1.sidecars h)
        × ((h : String)
            → has live.blobs h ≡ true
            → Kept disk.blobs (sweep now grace_seconds dry_run disk live).1.blobs h)
  unfolding sweep
  sweep-Kept disk live = (
    λ x. sweep_items-Kept disk live x,
    λ h. sweep_type-Kept "rows" live.rows _ disk.rows h,
    λ h. sweep_type-Kept "sidecars" live.sidecars _ disk.sidecars h,
    λ h. sweep_type-Kept "blobs" live.blobs _ disk.blobs h,
  )

collect_live_set_ok :
    (objects : Objects) (fuel now grace_seconds : ℕ) (dry_run : Bool) (disk : Disk)
    (refs : List String) (index : Dict (String × String)) (out : GcResult × Disk)
    → gc now grace_seconds dry_run objects fuel disk refs index ≡ some (ok out)
    → (live : Found) × (live' : Found) × (mark_refs objects fuel nothing_found refs
        ≡ some (ok live))
      × (mark_index objects live index ≡ ok live')
      × (sweep now grace_seconds dry_run disk live' ≡ out)
unfolding gc collect_live_set
collect_live_set_ok objects fuel now grace_seconds dry_run disk refs index out run =
    let (live', collected, swept) =
      then_run_ok (collect_live_set objects fuel refs index)
        (λ l. some (ok (sweep now grace_seconds dry_run disk l))) run in
    let (live, marked_refs, marked_index) =
      then_run_ok (mark_refs objects fuel nothing_found refs)
        (λ l. some (mark_index objects l index)) collected in
    let e : mark_index objects live index ≡ ok live' = cc in
    let e' : sweep now grace_seconds dry_run disk live' ≡ out = cc in
    (live, live', marked_refs, e, e')

-- Where garbage collection gives a result, the file of every object that links lead to from a ref
-- is still there, and so is the file of every row, sidecar and blob that such an object holds,
-- whatever the grace period is.
pub gc-Reach :
    (objects : Objects) (fuel now grace_seconds : ℕ) (dry_run : Bool) (disk disk' : Disk)
    (refs : List String) (index : Dict (String × String)) (result : GcResult) (ref : String)
    (x : Item) (c : Contents)
    → gc now grace_seconds dry_run objects fuel disk refs index ≡ some (ok (result, disk'))
    → has refs ref ≡ true
    → Reach objects (commit, ref) x
    → contents objects x ≡ ok c
    → Kept (files_of disk x) (files_of disk' x) x.1
      × ((h : String) → has c.rows h ≡ true → Kept disk.rows disk'.rows h)
      × ((h : String) → has c.sidecars h ≡ true → Kept disk.sidecars disk'.sidecars h)
      × ((h : String) → has c.blobs h ≡ true → Kept disk.blobs disk'.blobs h)
gc-Reach objects fuel now grace_seconds dry_run disk disk' refs index result ref x c run named reach
      read =
    let (live, live', by_refs, by_index, swept) =
      collect_live_set_ok objects fuel now grace_seconds dry_run disk refs index (result, disk')
        run in
    let (walked, walk, grows) =
      mark_refs-walk objects fuel nothing_found live refs ref by_refs named in
    let (grows', _, _) = mark_index-Grows objects live live' index by_index in
    let w = walk_commit_objects-IsWalk objects fuel ref walked walk in
    let found = seen-Reach objects (commit, ref) walked x w reach in
    let (b, read', leaves, _) = w.closed x found in
    let same : b ≡ c = cc in
    let held = subst (λ u. IsCollected u walked) same leaves in
    let g = Grows-trans walked live live' grows grows' in
    let e : (sweep now grace_seconds dry_run disk live').1 ≡ disk' = ap (λ u. u.1) swept in
    let (items, rows, sidecars, blobs) = sweep-Kept now grace_seconds dry_run disk live' in
    subst
      (λ (d : Disk).
        Kept (files_of disk x) (files_of d x) x.1
        × ((h : String) → has c.rows h ≡ true → Kept disk.rows d.rows h)
        × ((h : String) → has c.sidecars h ≡ true → Kept disk.sidecars d.sidecars h)
        × ((h : String) → has c.blobs h ≡ true → Kept disk.blobs d.blobs h))
      e
      (
        items x (g.items x found),
        λ h k. rows h (g.rows h (held.rows h k)),
        λ h k. sidecars h (g.sidecars h (held.sidecars h k)),
        λ h k. blobs h (g.blobs h (held.blobs h k)),
      )

-- Where garbage collection gives a result, the files of the manifests and blobs that the index
-- names are still there, whatever the grace period is.
pub gc-has_entry :
    (objects : Objects) (fuel now grace_seconds : ℕ) (dry_run : Bool) (disk disk' : Disk)
    (refs : List String) (index : Dict (String × String)) (result : GcResult) (h : String)
    → gc now grace_seconds dry_run objects fuel disk refs index ≡ some (ok (result, disk'))
    → (has_entry index "manifest" h ≡ true → Kept disk.manifests disk'.manifests h)
      × (has_entry index "blob" h ≡ true → Kept disk.blobs disk'.blobs h)
gc-has_entry objects fuel now grace_seconds dry_run disk disk' refs index result h run =
    let (live, live', by_refs, by_index, swept) =
      collect_live_set_ok objects fuel now grace_seconds dry_run disk refs index (result, disk')
        run in
    let (_, manifests, blobs) = mark_index-Grows objects live live' index by_index in
    let e : (sweep now grace_seconds dry_run disk live').1 ≡ disk' = ap (λ u. u.1) swept in
    let (items, _, _, kept_blobs) = sweep-Kept now grace_seconds dry_run disk live' in
    subst
      (λ (d : Disk).
        (has_entry index "manifest" h ≡ true → Kept disk.manifests d.manifests h)
        × (has_entry index "blob" h ≡ true → Kept disk.blobs d.blobs h))
      e (λ k. items (manifest, h) (manifests h k), λ k. kept_blobs h (blobs h k))
