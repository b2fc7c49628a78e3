-- ===== src/Server/Pulls/Resolve/Results.antt =====
-- What a resolution of conflicts makes of the files and of the rows.
use mathlib.Core.Path.{subst}
use dit.Prelude.{
  eq_of_test, ℕ, ◌≡◌, refl, ap, ◌∙◌, String, true, false, Option, none, some, List, [], ◌∷◌, ◌==◌,
  arith, eq_iff, Bool-cases, inl, inr, ok, has, Distinct, is_some, first_ok,
}
use dit.Prelude.Dict
use dit.Prelude.Dict.{Dict}
use dit.Objects.{ManifestEntry}
use dit.Merge.{MergeResult}
use dit.Server.{done, request}
use dit.Server.Tables.{Pull, Rows, find_pull}
use dit.Server.Access.{Token, is_allowed, resolve_actor}
use dit.Server.MergeCommit.{Storage, merge_base, merge_trees, has_conflicts}
use dit.Server.Pulls.Merging.{after_merge}
use dit.Server.Pulls.Resolve.{
  Resolution, resolution_map, choose_all, write_resolved, commit_resolved, resolve_conflicts,
}

module _ (storage : Storage) where
  -- The run of a request where every step succeeds and no other request commits at its pauses.
  pub resolve_conflicts_run :
      (token : Token) (pr_id : ℕ) (resolutions : List Resolution) (message : String)
      (author : Option String) (now : ℕ) (rows : Rows) (s s₁ s₂ : storage.State) (p : Pull)
      (target source h : String) (base : Option String) (r : MergeResult)
      (chosen : Dict ManifestEntry)
      → is_allowed 30 token ≡ true
      → find_pull rows.pulls pr_id ≡ some p
      → p.status ≡ "open"
      → Dict.get rows.refs p.target_ref ≡ some target
      → Dict.get rows.refs p.source_ref ≡ some source
      → merge_base storage target source s ≡ some (ok base)
      → merge_trees storage base target source s ≡ ok (r, s₁)
      → has_conflicts r ≡ true
      → choose_all (resolution_map [] resolutions) [] r.conflicts ≡ some chosen
      → commit_resolved storage r.merged_tree_entries chosen target source
          (resolve_actor token author)
          message
          now
          s₁
        ≡ ok (h, s₂)
      → request
          (resolve_conflicts storage token (λ x. x) (λ x. x) pr_id resolutions message author now)
          rows
          s
        ≡ (
          done h,
          record { committed = after_merge p h rows; pending = after_merge p h rows; objects = s₂ },
        )
  unfolding resolve_conflicts
  resolve_conflicts_run token pr_id resolutions message author now rows s s₁ s₂ p target source h
        base r chosen may there open_ found_t found_s based joined clash chose written =
      let o : (p.status == "open") ≡ true = ground (arith, eq_iff p.status "open", open_) in
      let m : (target == target) ≡ true = ground (arith, eq_iff target target) in
      rw (may, there, o, found_t, found_s, based, joined, clash, chose, written, found_t, m) refl

  -- A file that is not among those to write keeps its manifest.
  write_resolved-other :
      (files : Dict String) (chosen : Dict ManifestEntry) (s s' : storage.State)
      (files' : Dict String) (path : String)
      → write_resolved storage files chosen s ≡ ok (files', s')
      → has (Dict.keys chosen) path ≡ false
      → Dict.get files' path ≡ Dict.get files path
  unfolding write_resolved Dict.keys has
  write_resolved-other files [] s s' files' path run absent = ground (arith, run)
  write_resolved-other files ((k, e) ∷ chosen) s s' files' path run absent =
      let ((h, s₁), wrote_, rest) =
        first_ok (storage.write_manifest s (record { entries = e ∷ [] })) _ run in
      ground (
        arith,
        write_resolved-other (Dict.put files k h) chosen s₁ s' files' path rest,
        Dict.get-put files k path h,
      )

  write_resolved-chosen :
      (files : Dict String) (chosen : Dict ManifestEntry) (s s' : storage.State)
      (files' : Dict String)
      → Distinct (Dict.keys chosen)
      → write_resolved storage files chosen s ≡ ok (files', s')
      → (path : String) (e : ManifestEntry) → Dict.get chosen path ≡ some e
      → (before after : storage.State) × (h : String) × (storage.write_manifest before
            (record { entries = e ∷ [] })
          ≡ ok (h, after))
        × (Dict.get files' path ≡ some h)
  unfolding write_resolved Dict.keys Dict.get
  write_resolved-chosen files [] s s' files' d run path e there = cc
  write_resolved-chosen files ((k, e) ∷ chosen) s s' files' (new, d) run path e' there =
      let ((h, s₁), wrote_, rest) =
        first_ok (storage.write_manifest s (record { entries = e ∷ [] })) _ run in
      elim (Bool-cases (k == path)) [
        | inr other ↦
            write_resolved-chosen (Dict.put files k h) chosen s₁ s' files' d rest path e'
              (rw other at there)
        | inl same ↦
            let k_path : k ≡ path = eq_of_test k path same in
            let same_entry : e ≡ e' = ground (arith, rw same at there) in
            let kept : Dict.get files' k ≡ Dict.get (Dict.put files k h) k =
              write_resolved-other (Dict.put files k h) chosen s₁ s' files' k rest new in
            (
              s,
              s₁,
              h,
              subst (λ u. storage.write_manifest s (record { entries = u ∷ [] }) ≡ ok (h, s₁))
                  same_entry wrote_,
              subst (λ u. Dict.get files' u ≡ some h) k_path
                  (kept ∙ ground (arith, Dict.get-put files k k h, eq_iff k k)),
            )
      ]

  -- Each file with a resolved conflict becomes a manifest of the chosen row alone: if the manifests
  -- can be written, then the hash of such a file is that of a manifest with one row, which was
  -- written for it, whatever other rows the merge had kept in it, and every other file keeps its
  -- hash.
  pub write_resolved_lem :
      (files : Dict String) (chosen : Dict ManifestEntry) (s s' : storage.State)
      (files' : Dict String)
      → Distinct (Dict.keys chosen)
      → write_resolved storage files chosen s ≡ ok (files', s')
      → ((path : String) (e : ManifestEntry)
          → Dict.get chosen path ≡ some e
          → (before after : storage.State) × (h : String) × (storage.write_manifest before
                (record { entries = e ∷ [] })
              ≡ ok (h, after))
            × (Dict.get files' path ≡ some h))
        × ((path : String)
            → Dict.get chosen path ≡ none
            → Dict.get files' path ≡ Dict.get files path)
  write_resolved_lem files chosen s s' files' d run = (
    write_resolved-chosen files chosen s s' files' d run,
    λ path absent.
        write_resolved-other files chosen s s' files' path run
          (Dict.has-keys chosen path ∙ ap is_some absent),
  )
