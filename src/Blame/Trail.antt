-- ===== src/Blame/Trail.antt =====
-- What `row_history` lists of a row.
use mathlib.Core.List.{Mem}
use dit.Prelude.{
  eq_of_test, ℕ, zero, suc, ◌≡◌, refl, ap, ◌∙◌, String, true, false, Option, none, some, List, [],
  ◌∷◌, ◌++◌, ◌==◌, Result, ok, has, get_elem?, arith, eq_iff, All, Bool-cases, Option-cases, inl,
  inr,
}
use dit.Objects.{ManifestEntry, Manifest, Commit, row_hashes, fingerprint}
use dit.Commits.{Loader}
use dit.Diff.{new_hashes}
use dit.Diff.Pairing.{IsRefresh}
use dit.Diff.Patch.{IsGone, IsNew, has-mem}
use dit.Diff.Correct.{diff-refreshed}
use dit.Diff.NewRows.{diff-reported}
use dit.Blame.{first_parent}
use dit.Blame.Correct.{IsNewAt, IsOrigin, History}
use dit.Blame.History.{Event, event_at, refreshed_from, last_event, track, row_history}

append_snoc {ℓ} :
    {A : Type ℓ} (xs : List A) (x : A) (ys : List A) → (xs ++ x ∷ []) ++ ys ≡ xs ++ x ∷ ys
append_snoc [] x ys = refl
append_snoc (z ∷ zs) x ys = ap (λ r. z ∷ r) (append_snoc zs x ys)

refreshed_from-none :
    (ts : List (String × String × String)) (h : String)
    → refreshed_from ts h ≡ none
    → has (new_hashes ts) h ≡ false
unfolding refreshed_from new_hashes has
refreshed_from-none [] h e = refl
refreshed_from-none (t ∷ ts) h e = ground (arith, refreshed_from-none ts h)

-- A row of the new manifest with hash `h`, which the old one lacks, replaces one of the old manifest
-- with hash `o`, which the new one lacks, and both have the same fingerprint.
abbrev pub Replaces : Manifest → Manifest → String → String → Type 0
Replaces old new o h =
    (x : ManifestEntry) × (n : ManifestEntry) × (q : String) × Mem x old.entries
    × Mem n new.entries
    × (x.row_hash ≡ o)
    × (n.row_hash ≡ h)
    × (has (row_hashes new.entries) o ≡ false)
    × (has (row_hashes old.entries) h ≡ false)
    × (fingerprint x ≡ some q)
    × (fingerprint n ≡ some q)

refreshed_from-some :
    (old new : Manifest) (ts : List (String × String × String)) (h o : String)
    → All (IsRefresh (IsGone old new) (IsNew old new)) ts
    → refreshed_from ts h ≡ some o
    → Replaces old new o h
unfolding refreshed_from
refreshed_from-some old new [] h o rs e = cc
refreshed_from-some old new (t ∷ ts) h o ((x, n, gone, is_new, te, fo, fn), rs) e =
    elim (Bool-cases (t.1 == h)) [
      | inr other ↦ refreshed_from-some old new ts h o rs (rw other at e)
      | inl same ↦
          let eo : t.0 ≡ o = ground (arith, rw same at e) in
          let k : x.row_hash ≡ o = cc (eo, ap (λ (u : String × String × String). u.0) te) in
          let kn : n.row_hash ≡ h =
            cc (ap (λ (u : String × String × String). u.1) te, eq_of_test t.1 h same) in
          (x, n, t.2, gone.0, is_new.0, k, kn, rw k at gone.1, rw kn at is_new.1, fo, fn)
    ]

get_elem?-has :
    (es : List ManifestEntry) (i : ℕ) (e : ManifestEntry)
    → get_elem? es i ≡ some e
    → has (row_hashes es) e.row_hash ≡ true
unfolding row_hashes has
get_elem?-has [] i e h = cc
get_elem?-has (x ∷ es) zero e h =
    let k : x ≡ e = ground (arith, h) in rw k (ground (arith, eq_iff e.row_hash e.row_hash))
get_elem?-has (x ∷ es) (suc i) e h = ground (arith, get_elem?-has es i e h)

module _ (load : Loader) (manifest_of : String → Result Manifest) where
  -- The events of a row, the latest first: refreshes, each of which replaces a row that the file
  -- has at the first parent, then the commit that added it.
  pub data IsTrail : String → List Event → Type 0 where
    added :
        (e : Event)
        → e.event ≡ "added"
        → IsOrigin load manifest_of e.row_hash e.commit_hash
        → IsTrail e.row_hash (e ∷ [])
    refreshed :
        (e : Event) (commit : Commit) (p old : String) (before after : Manifest) {rest : List Event}
        → e.event ≡ "refresh"
        → load e.commit_hash ≡ ok (some commit)
        → first_parent commit.parent_hashes ≡ some p
        → manifest_of e.commit_hash ≡ ok after
        → manifest_of p ≡ ok before
        → Replaces before after old e.row_hash
        → IsTrail old rest
        → IsTrail e.row_hash (e ∷ rest)

  abbrev Trailed : String → List Event → Option (Result (List Event)) → Type 0
  Trailed h before r = (rest : List Event) × (r ≡ some (ok (before ++ rest))) × IsTrail h rest

  last-Trailed :
      (c : String) (commit : Commit) (m : Manifest) (h : String) (before : List Event)
      → load c ≡ ok (some commit)
      → manifest_of c ≡ ok m
      → has (row_hashes m.entries) h ≡ true
      → IsNewAt load manifest_of commit m h
      → Trailed h before (some (ok (last_event c commit m h before)))
  last-Trailed c commit m h before loaded at_ there new = (
    event_at c commit "added" h ∷ [],
    rw there refl,
    added (event_at c commit "added" h) refl (commit, m, loaded, at_, there, new),
  )

  track-Trailed :
      (c : String) (m : Manifest) (h : String) (before : List Event) (fuel : ℕ)
      → History load manifest_of c fuel
      → manifest_of c ≡ ok m
      → has (row_hashes m.entries) h ≡ true
      → Trailed h before (track load manifest_of fuel c m h before)
  unfolding track
  track-Trailed _ m h before _ (History.root c commit fuel named loaded alone) at_ there =
      rw (named, loaded, alone) (last-Trailed c commit m h before loaded at_ there (inl alone))
  track-Trailed _ m h before _ (History.created c p commit fuel named loaded parent absent) at_
        there =
      rw (named, loaded, parent, absent)
        (last-Trailed c commit m h before loaded at_ there (inr (p, parent, inl absent)))
  track-Trailed _ m h before _ (History.changed c p commit pm fuel named loaded parent at_p earlier)
        at_ there =
      let (d, ran, new, old) = diff-reported pm m in
      elim (Bool-cases (has (row_hashes d.added) h)) [
        | inl yes_ ↦
            let (in_m, why) = new h (ground (arith, yes_)) in
            rw (named, loaded, parent, at_p, ran, yes_)
              (
                event_at c commit "added" h ∷ [],
                refl,
                added (event_at c commit "added" h) refl
                    (commit, m, loaded, at_, there, inr (p, parent, inr (pm, at_p, why))),
              )
        | inr no_ ↦ elim (Option-cases (refreshed_from d.refreshed h)) [
          | inl kept ↦
              let in_pm =
                old h (ground (arith, no_, refreshed_from-none d.refreshed h kept)) there in
              rw (named, loaded, parent, at_p, ran, no_, kept)
                (track-Trailed p pm h before fuel earlier at_p in_pm)
          | inr (o, from) ↦
              let replaces : Replaces pm m o h =
                refreshed_from-some pm m d.refreshed h o (diff-refreshed pm m d ran) from in
              let (x, n, q, mx, mn, ex, en, gone, new_, fx, fn) = replaces in
              let in_pm = rw ex at (has-mem pm.entries mx) in
              let e = event_at c commit "refresh" h in
              let (rest, tracked, trail) =
                track-Trailed p pm o (before ++ e ∷ []) fuel earlier at_p in_pm in
              rw (named, loaded, parent, at_p, ran, no_, from)
                (
                  e ∷ rest,
                  tracked ∙ ap (λ u. some (ok u)) (append_snoc before e rest),
                  refreshed e commit p o pm m refl loaded parent at_ at_p replaces trail,
                )
        ]
      ]

  -- If the file is there at the commit and has a row with this index, and the commits of its first
  -- parents are there as far back as they have the file, in fewer steps than the fuel, then the history
  -- of the row ends without an error. Its events go back from the row. Each refresh is at a commit
  -- whose file has the row that is tracked there, with a fingerprint, while the file of the first
  -- parent lacks it; the row tracked from there on is one of that file with the same fingerprint, which
  -- the commit lacks. The last event, the only one that is not a refresh, is at a commit that has the
  -- row and has no parent, or whose first parent lacks the file or the row, or has a file that the
  -- commit only reorders: the same set of row hashes in another list of entries.
  pub row_history-IsTrail :
      (commit_hash : String) (row_index fuel : ℕ) (target : Manifest) (e : ManifestEntry)
      → History load manifest_of commit_hash fuel
      → manifest_of commit_hash ≡ ok target
      → get_elem? target.entries row_index ≡ some e
      → (events : List Event) × (row_history load manifest_of fuel commit_hash row_index
          ≡ some (ok events))
        × IsTrail e.row_hash events
  unfolding row_history
  row_history-IsTrail commit_hash row_index fuel target e history at_ there =
      let (events, ran, trail) =
        track-Trailed commit_hash target e.row_hash [] fuel history at_
          (get_elem?-has target.entries row_index e there) in
      (events, rw (at_, there) ran, trail)
