-- ===== src/Gc/Sweep.antt =====
-- Which files a sweep leaves.
use dit.Prelude.{
  ℕ, ◌≡◌, refl, String, Bool, false, not, ◌&&◌, Option, none, some, List, [], ◌∷◌, has, filter,
  arith, inl, inr, Bool-cases,
}
use dit.Gc.{GcResult, File, is_stale, unlink, sweep_old, sweep_file, sweep_files, scan}

module _ (now grace_seconds : ℕ) (dry_run : Bool) where
  abbrev pub is_old : Option ℕ → Bool
  is_old none = false
  is_old (some mtime) = is_stale now grace_seconds dry_run mtime

  -- The rule: a file goes if it is not live, is older than the grace period, can be deleted, and
  -- deletion is asked for.
  unfoldable pub goes : List String → File → Bool
  goes live f = not (has live f.name) && (is_old f.mtime && (f.can_unlink && not dry_run))

  sweep_old-stays :
      (obj_type : String) (r : GcResult) (f : File) (m : Option ℕ)
      → (sweep_old now grace_seconds dry_run obj_type r f m).1
        ≡ not (is_old m && (f.can_unlink && not dry_run))
  unfolding sweep_old unlink
  sweep_old-stays obj_type r f none = refl
  sweep_old-stays obj_type r f (some m) = elim (Bool-cases (is_stale now grace_seconds dry_run m)) [
    | inr young ↦ rw young
    | inl old ↦ rw old (elim (Bool-cases dry_run) [
      | inl dry ↦ ground (arith, dry)
      | inr wet ↦ elim (Bool-cases f.can_unlink) [
        | inl can ↦ ground (arith, wet, can)
        | inr cannot ↦ ground (arith, wet, cannot)
      ]
    ])
  ]

  sweep_file-stays :
      (obj_type : String) (live : List String) (r : GcResult) (f : File)
      → (sweep_file now grace_seconds dry_run obj_type live r f).1 ≡ not (goes live f)
  unfolding sweep_file goes
  sweep_file-stays obj_type live r f = elim (Bool-cases (has live f.name)) [
    | inl alive ↦ rw alive
    | inr dead ↦ rw dead (sweep_old-stays obj_type (scan r) f f.mtime)
  ]

  pub sweep_files-filter :
      (obj_type : String) (live : List String) (r : GcResult) (fs : List File)
      → (sweep_files now grace_seconds dry_run obj_type live r fs).1
        ≡ filter (λ f. not (goes live f)) fs
  unfolding sweep_files filter
  sweep_files-filter obj_type live r [] = refl
  sweep_files-filter obj_type live r (f ∷ fs) =
      let stays = sweep_file-stays obj_type live r f in
      let rest =
        sweep_files-filter obj_type live (sweep_file now grace_seconds dry_run obj_type live r f).0
          fs in
      rw (stays, rest)
