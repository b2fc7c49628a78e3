-- ===== src/Server/Requests/PullChanges.antt =====
-- The changes that requests on pull requests make.
use dit.Prelude.{
  ℕ, ◌≡◌, refl, eq_of_test, String, Bool, true, false, not, Option, some, List, [], ◌==◌, opt_eq,
  Bool-cases, inl, inr,
}
use dit.Prelude.Dict
use dit.Server.{World, Action, ◌>>=◌, pure}
use dit.Server.Exits.{
  Ends, exit_refuse_if, exit_found, exit_reads, exit_runs, exit_writes, exit_then,
  exit_resolve_branch, exit_mergeability,
}
use dit.Server.Tables.{Pull, Rows, find_pull, ref_is, count_approved}
use dit.Server.Access.{Token, is_allowed, resolve_actor}
use dit.Server.Protection.{rule_for}
use dit.Server.MergeCommit.{Storage, merge_base, merge_trees, do_merge, has_conflicts}
use dit.Server.DiffStats.{compute_diff_stats}
use dit.Server.Requests.{alone, open_pull, edit_pull, join_pull, resolve_pull}
use dit.Server.Pulls.Resolve.{
  Resolution, resolution_map, choose_all, commit_resolved, resolve_conflicts,
}
use dit.Server.Pulls.{
  check_approvals, remove_prefix, lacks_approvals, finish_merge, merge_from, merge_pull,
  update_pull, create_pull,
}
use dit.Server.Pulls.Merging.{after_merge, ref_is-true, true_of_not, test_ne}
use dit.Server.Requests.May.{May}

module _ {S : Type 0} (rows : Rows) where
  -- A world in which nothing is pending.
  abbrev pub at_rest : S → World S
  at_rest s = record { committed = rows; pending = rows; objects = s }

  -- What is to be shown of a request: a reply leaves what `M` allows, any other outcome no change.
  abbrev pub Allowed : (Rows → Type 0) → (World S → Type 0) × (World S → Type 0)
  Allowed M = ((λ w. M w.committed), (λ w. w.committed ≡ rows))

  pub finish_merge-Allowed :
      (M : Rows → Type 0) (p : Pull) (target h : String) (s : S)
      → (Dict.get rows.refs p.target_ref ≡ some target → M (after_merge p h rows))
      → Ends (Allowed M) (finish_merge p target h (at_rest s))
  finish_merge-Allowed M p target h s k =
      elim (Bool-cases (ref_is (Dict.get rows.refs p.target_ref) target)) [
        | inl yes_ ↦ rw yes_ (k (ref_is-true _ target yes_))
        | inr other ↦ rw other refl
      ]

  pub update_pull-Allowed :
      (token : Token) (pr_id : ℕ) (title status : Option String) (s : S)
      → Ends
          (Allowed (May token (edit_pull pr_id title status) rows))
          (update_pull token pr_id title status (at_rest s))
  unfolding update_pull
  update_pull-Allowed token pr_id title status s =
      let Q = Allowed (May token (edit_pull pr_id title status) rows) in
      exit_refuse_if Q (not (is_allowed 30 token)) 403 _ (at_rest s) refl λ allowed.
        exit_found Q (find_pull rows.pulls pr_id) 404 _ (at_rest s) refl λ p there.
          exit_refuse_if Q (p.status == "merged") 400 _ (at_rest s) refl
            λ open_. (p, there, test_ne p.status "merged" open_, refl)

  pub check-Allowed :
      (M : Rows → Type 0) (fnmatch : String → String → Bool) (p : Pull) {B : Type 0}
      (f : Unit {0} → Action S B) (s : S)
      → Ends (Allowed M) (f tt (at_rest s))
      → Ends
          (Allowed M)
          ((check_approvals fnmatch p.target_ref p.pull_request_id >>= f) (at_rest s))
  check-Allowed M fnmatch p f s k =
      exit_refuse_if (Allowed M)
        (lacks_approvals (rule_for fnmatch (remove_prefix "heads/" p.target_ref) rows.rules)
          (count_approved p.pull_request_id rows.approvals))
        403 f (at_rest s) refl λ enough. k

module _ (storage : Storage) (rows : Rows) where
  merge_from-Allowed :
      (M : Rows → Type 0) (p : Pull) (author message : String) (now : ℕ) (base : Option String)
      (s : storage.State)
      → ((h : String)
          → Dict.get rows.refs p.target_ref ≡ some p.target_commit
          → M (after_merge p h rows))
      → Ends (Allowed rows M) (merge_from storage alone p author message now base (at_rest rows s))
  merge_from-Allowed M p author message now base s k =
      elim (Bool-cases (opt_eq base (some p.target_commit))) [
        | inl up ↦ rw up (
            exit_then (Allowed rows M)
              (finish_merge p p.target_commit p.source_commit (at_rest rows s))
              (λ u. pure (true, p.source_commit))
              (finish_merge-Allowed rows M p p.target_commit p.source_commit s (k p.source_commit))
              (λ a w q. q))
        | inr no_ ↦ rw no_ (
            exit_writes (Allowed rows M)
              (do_merge storage base p.target_commit p.source_commit author message now) _
              (at_rest rows s) refl
              λ rh s'. exit_found (Allowed rows M) rh.1 409 _ (at_rest rows s') refl λ c written.
                exit_then (Allowed rows M) (finish_merge p p.target_commit c (at_rest rows s'))
                  (λ u. pure (false, c)) (finish_merge-Allowed rows M p p.target_commit c s' (k c))
                  (λ a w q. q))
      ]

  pub merge_pull-Allowed :
      (fnmatch : String → String → Bool) (token : Token) (pr_id : ℕ) (message : String)
      (author : Option String) (now : ℕ) (s : storage.State)
      → Ends
          (Allowed rows (May token (join_pull pr_id message author now) rows))
          (merge_pull storage fnmatch token alone alone pr_id message author now (at_rest rows s))
  unfolding merge_pull
  merge_pull-Allowed fnmatch token pr_id message author now s =
      let Q = Allowed rows (May token (join_pull pr_id message author now) rows) in
      exit_refuse_if Q (not (is_allowed 30 token)) 403 _ (at_rest rows s) refl λ allowed.
        exit_found Q (find_pull rows.pulls pr_id) 404 _ (at_rest rows s) refl λ p there.
          exit_refuse_if Q (p.status == "merged") 400 _ (at_rest rows s) refl λ open_.
            exit_refuse_if Q (p.status == "closed") 400 _ (at_rest rows s) refl λ not_closed.
              check-Allowed rows (May token (join_pull pr_id message author now) rows) fnmatch p _ s
                (exit_runs Q (merge_base storage p.target_commit p.source_commit) _ (at_rest rows s)
                  refl
                  λ base.
                    merge_from-Allowed (May token (join_pull pr_id message author now) rows) p
                      (resolve_actor token author) message now base s
                      (λ h matched. (
                        p,
                        h,
                        there,
                        test_ne p.status "merged" open_,
                        test_ne p.status "closed" not_closed,
                        matched,
                        refl,
                      )))

  pub resolve_conflicts-Allowed :
      (token : Token) (pr_id : ℕ) (resolutions : List Resolution) (message : String)
      (author : Option String) (now : ℕ) (s : storage.State)
      → Ends (Allowed rows (May token (resolve_pull pr_id resolutions message author now) rows)) (
          resolve_conflicts storage token alone alone pr_id resolutions message author now
            (at_rest rows s))
  unfolding resolve_conflicts
  resolve_conflicts-Allowed token pr_id resolutions message author now s =
      let Q = Allowed rows (May token (resolve_pull pr_id resolutions message author now) rows) in
      exit_refuse_if Q (not (is_allowed 30 token)) 403 _ (at_rest rows s) refl λ allowed.
        exit_found Q (find_pull rows.pulls pr_id) 404 _ (at_rest rows s) refl λ p there.
          exit_refuse_if Q (not (p.status == "open")) 400 _ (at_rest rows s) refl λ open_.
            exit_found Q (Dict.get rows.refs p.target_ref) 404 _ (at_rest rows s) refl
              λ target found_t.
                exit_found Q (Dict.get rows.refs p.source_ref) 404 _ (at_rest rows s) refl
                  λ source found_s.
                    exit_runs Q (merge_base storage target source) _ (at_rest rows s) refl λ base.
                      exit_writes Q (merge_trees storage base target source) _ (at_rest rows s) refl
                        λ r s₁.
                          exit_refuse_if Q (not (has_conflicts r)) 400 _ (at_rest rows s₁) refl
                            λ clash.
                              exit_found Q
                                (choose_all (resolution_map [] resolutions) [] r.conflicts) 422 _
                                (at_rest rows s₁) refl
                                λ chosen chose.
                                  exit_writes Q
                                    (commit_resolved storage r.merged_tree_entries chosen target
                                      source (resolve_actor token author) message now)
                                    _ (at_rest rows s₁) refl
                                    λ h s₂.
                                      exit_then Q (finish_merge p target h (at_rest rows s₂))
                                        (λ u. pure h)
                                        (finish_merge-Allowed rows
                                          (May token
                                            (resolve_pull pr_id resolutions message author now)
                                            rows)
                                          p target h s₂
                                          (λ matched. (
                                            p,
                                            target,
                                            h,
                                            there,
                                            eq_of_test p.status "open" (true_of_not _ open_),
                                            matched,
                                            refl,
                                          )))
                                        (λ a w q. q)

  pub create_pull-Allowed :
      (token : Token) (title source_branch target_branch : String) (author : Option String)
      (s : storage.State)
      → Ends (Allowed rows (May token (open_pull title source_branch target_branch author) rows)) (
          create_pull storage token alone title source_branch target_branch author (at_rest rows s))
  unfolding create_pull
  create_pull-Allowed token title source_branch target_branch author s =
      let Q = Allowed rows (May token (open_pull title source_branch target_branch author) rows) in
      exit_refuse_if Q (not (is_allowed 30 token)) 403 _ (at_rest rows s) refl λ allowed.
        exit_refuse_if Q (source_branch == target_branch) 400 _ (at_rest rows s) refl λ differ.
          exit_resolve_branch Q source_branch _ (at_rest rows s) refl λ source found_s.
            exit_resolve_branch Q target_branch _ (at_rest rows s) refl λ target found_t.
              exit_reads Q (λ x. compute_diff_stats storage x source target) _ (at_rest rows s) refl
                λ stats.
                  exit_mergeability storage Q target source _ (at_rest rows s) refl
                    λ base r s₁. (_, refl, refl, refl, refl, refl, found_s, found_t, refl, refl)
