-- ===== src/Gc/Termination.antt =====
-- Garbage collection ends.
use dit.Prelude.{
  Result-cases, ℕ, ◌+◌, ◌<◌, ◌≡◌, refl, String, Bool, some, List, [], ◌∷◌, Result, ok, raise, inl,
  inr,
}
use dit.Prelude.Dict.{Dict}
use dit.Walker.{Item, Found, nothing_found, Objects}
use dit.Walker.Termination.{IsListed, links_left}
use dit.Walker.Reachable.{walk_commit_objects_total}
use dit.Gc.{GcResult, Disk, unite, mark_refs, mark_index, collect_live_set, sweep, gc}

mark_refs_total :
    (objects : Objects) (us : List Item) (fuel : ℕ)
    → IsListed objects us
    → 1 + links_left objects us nothing_found < fuel
    → (live : Found) (refs : List String)
    → (r : Result Found) × (mark_refs objects fuel live refs ≡ some r)
unfolding mark_refs
mark_refs_total objects us fuel listed enough live [] = (ok live, refl)
mark_refs_total objects us fuel listed enough live (h ∷ hs) =
    let (x, run, _, _) = walk_commit_objects_total objects us fuel h listed enough in
    elim (Result-cases x) [
      | inl (walked, e) ↦
          let (r, rest) = mark_refs_total objects us fuel listed enough (unite live walked) hs in
          (r, rw (run, e) rest)
      | inr (err, e) ↦ (raise err, rw (run, e))
    ]

-- In a store whose objects with links are all in a list, fuel above the number of their links plus
-- one is enough for garbage collection to end, with a result or with the exception of a read.
pub gc_total :
    (objects : Objects) (us : List Item) (fuel now grace_seconds : ℕ) (dry_run : Bool) (disk : Disk)
    (refs : List String) (index : Dict (String × String))
    → IsListed objects us
    → 1 + links_left objects us nothing_found < fuel
    → (r : Result (GcResult × Disk)) × (gc now grace_seconds dry_run objects fuel disk refs index
        ≡ some r)
unfolding gc collect_live_set
gc_total objects us fuel now grace_seconds dry_run disk refs index listed enough =
    let (r, run) = mark_refs_total objects us fuel listed enough nothing_found refs in
    elim (Result-cases r) [
      | inr (e, q) ↦ (raise e, rw (run, q))
      | inl (live, q) ↦ elim (Result-cases (mark_index objects live index)) [
        | inr (e, q') ↦ (raise e, rw (run, q, q'))
        | inl (live', q') ↦ (ok (sweep now grace_seconds dry_run disk live'), rw (run, q, q'))
      ]
    ]
