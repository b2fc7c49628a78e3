-- ===== src/Server/Pulls.antt =====
-- server/routes/pulls.py: pull requests. `token` and the check of its permission come first in every
-- request; a repository that does not exist is refused with 404 before, and is left out. `others` is
-- what other requests commit while this one waits for a thread; `fnmatch` is the standard library's.
pub mod Resolve
pub mod Merging
pub mod Editing
use Prim.Native.String.{◌++◌ as str_append}
use dit.Prelude.{
  ℕ, suc, ◌+◌, ◌≡◌, String, Bool, true, false, not, Option, none, some, List, [], ◌∷◌, ◌++◌, ◌==◌,
  opt_eq, nat_eq, ltb, if◌then◌else◌,
}
use dit.Prelude.Dict
use dit.Prelude.Dict.{Dict}
use dit.Merge.{MergeResult}
use dit.Server.{
  Action, ◌>>=◌, ◌>>◌, pure, refuse, refuse_if, found, gets, modify, commit, wait, reads, runs,
  writes,
}
use dit.Server.Tables.{
  Rule, Pull, Approval, Rows, find_pull, change_pull, max_pull_id, count_approved, ref_is,
  update_ref,
}
use dit.Server.Access.{Token, or_empty, resolve_actor}
use dit.Server.Protection.{permit, rule_for, or_old}
use dit.Server.DiffStats.{Stats, conflict_files, compute_diff_stats}
use dit.Server.MergeCommit.{Storage, merge_base, merge_trees, do_merge, has_conflicts}

abbrev pub ref_name : String → String
ref_name branch = str_append "heads/" branch

-- `s.removeprefix(p)`; `none` is where `p` is no prefix.
unfoldable pub after_prefix : String → String → Option String
after_prefix String.[] s = some s
after_prefix (String.◌∷◌ c p) String.[] = none
after_prefix (String.◌∷◌ c p) (String.◌∷◌ d s) =
    let rest = after_prefix p s in
    if String.◌∷◌ c String.[] == String.◌∷◌ d String.[] then rest else none

unfoldable pub remove_prefix : String → String → String
unfolding after_prefix
remove_prefix p s = or_old (after_prefix p s) s

abbrev pub with_pulls : (List Pull → List Pull) → Rows → Rows
with_pulls f rows = record rows { pulls = f rows.pulls }

abbrev pub merged : String → Pull → Pull
merged h p = record p { status = "merged"; merge_commit = some h; target_commit = h }

-- Whether a rule asks for more approvals than there are.
abbrev pub lacks_approvals : Option Rule → ℕ → Bool
lacks_approvals none approved = false
lacks_approvals (some r) approved =
    if nat_eq r.required_approvals 0 then false else ltb approved r.required_approvals

unfoldable pub pulls_with : Option String → List Pull → List Pull
pulls_with status [] = []
pulls_with status (p ∷ ps) =
    let rest = pulls_with status ps in
    if opt_eq status none
    then p ∷ rest
    else if opt_eq status (some p.status)
    then p ∷ rest
    else rest

abbrev pub updated_pull : Option String → Option String → Pull → Pull
updated_pull title status p = record p {
  title = or_old title p.title;
  status = or_old status p.status;
}

module _ {S : Type 0} where
  -- `_resolve_branch`
  abbrev pub resolve_branch : String → Action S (String × String)
  resolve_branch branch = do
    target ← gets (λ rows. Dict.get rows.refs (ref_name branch))
    h ← found target 404
    pure (ref_name branch, h)

  -- The compare-and-set of a branch.
  abbrev pub advance_ref : String → String → String → Action S (Unit {0})
  advance_ref name old new = do
    matched ← gets (λ rows. ref_is (Dict.get rows.refs name) old)
    modify (λ rows. update_ref rows name old new)
    refuse_if (not matched) 409

  abbrev pub get_pull : ℕ → Action S Pull
  get_pull pr_id = do row ← gets (λ rows. find_pull rows.pulls pr_id); found row 404

  -- `_check_pr_merge_approvals`
  abbrev pub check_approvals : (String → String → Bool) → String → ℕ → Action S (Unit {0})
  check_approvals fnmatch target_ref pr_id = do
    rule ← gets (λ rows. rule_for fnmatch (remove_prefix "heads/" target_ref) rows.rules)
    approved ← gets (λ rows. count_approved pr_id rows.approvals)
    refuse_if (lacks_approvals rule approved) 403

  -- What ends a merge: the branch moves, and the pull request is marked.
  abbrev pub finish_merge : Pull → String → String → Action S (Unit {0})
  finish_merge p target h = do
    advance_ref p.target_ref target h
    modify (with_pulls (change_pull p.pull_request_id (merged h)))
    commit

  -- By number: the order of insertion.
  unfoldable pub list_pulls : Token → Option String → Action S (List Pull)
  list_pulls token status = do permit 10 token; gets (λ rows. pulls_with status rows.pulls)

  unfoldable pub read_pull : Token → ℕ → Action S Pull
  read_pull token pr_id = do permit 10 token; get_pull pr_id

  -- `update_pull_request`; the description of the body is not kept.
  unfoldable pub update_pull : Token → ℕ → Option String → Option String → Action S (Unit {0})
  update_pull token pr_id title status = do
    permit 30 token
    p ← get_pull pr_id
    refuse_if (p.status == "merged") 400
    modify (with_pulls (change_pull pr_id (updated_pull title status)))
    commit

module _ (storage : Storage) where
  -- `_compute_mergeability`: the merge base, and the result of the merge.
  abbrev pub compute_mergeability :
      String → String → Action storage.State (Option String × MergeResult)
  compute_mergeability target source = do
    base ← runs (merge_base storage target source)
    r ← writes (merge_trees storage base target source)
    pure (base, r)

  abbrev pub new_pull :
      ℕ
      → String
      → String
      → String
      → String
      → String
      → String
      → Stats
      → Option String
      → MergeResult
      → Pull
  new_pull id title author source_ref target_ref source target stats base r = record {
    pull_request_id = id;
    title = title;
    author = author;
    status = "open";
    source_ref = source_ref;
    target_ref = target_ref;
    base_commit = or_empty base;
    source_commit = source;
    target_commit = target;
    merge_commit = none;
    is_mergeable = not (has_conflicts r);
    conflict_files = conflict_files r.conflicts;
    stats_added = stats.stats_added;
    stats_removed = stats.stats_removed;
    stats_refreshed = stats.stats_refreshed;
  }

  unfoldable pub create_pull :
      Token → (Rows → Rows) → String → String → String → Option String → Action storage.State Pull
  create_pull token others title source_branch target_branch author = do
    permit 30 token
    refuse_if (source_branch == target_branch) 400
    (source_ref, source) ← resolve_branch source_branch
    (target_ref, target) ← resolve_branch target_branch
    stats ← reads (λ s. compute_diff_stats storage s source target)
    (base, r) ← compute_mergeability target source
    wait others
    last ← gets (λ rows. max_pull_id rows.pulls)
    let p : Pull =
        new_pull (last + 1) title (resolve_actor token author) source_ref target_ref source target
          stats base r
    modify (with_pulls (λ pulls. pulls ++ p ∷ []))
    commit
    pure p

  -- `merge_pull_request`, from the merge base on. The commit's hash is `None` exactly where the merge
  -- has conflicts.
  abbrev pub merge_from :
      (Rows → Rows)
      → Pull
      → String
      → String
      → ℕ
      → Option String
      → Action storage.State (Bool × String)
  merge_from others p author message now base =
      let forward : Action storage.State (Bool × String) = (do
        finish_merge p p.target_commit p.source_commit
        pure (true, p.source_commit)) in
      let three_way : Action storage.State (Bool × String) = (do
        (r, h) ← writes (do_merge storage base p.target_commit p.source_commit author message now)
        wait others
        c ← found h 409
        finish_merge p p.target_commit c
        pure (false, c)) in
      if opt_eq base (some p.target_commit) then forward else three_way

  unfoldable pub merge_pull :
      (String → String → Bool)
      → Token
      → (Rows → Rows)
      → (Rows → Rows)
      → ℕ
      → String
      → Option String
      → ℕ
      → Action storage.State (Bool × String)
  merge_pull fnmatch token others₁ others₂ pr_id message author now = do
    permit 30 token
    p ← get_pull pr_id
    refuse_if (p.status == "merged") 400
    refuse_if (p.status == "closed") 400
    check_approvals fnmatch p.target_ref p.pull_request_id
    base ← runs (merge_base storage p.target_commit p.source_commit)
    wait others₁
    merge_from others₂ p (resolve_actor token author) message now base
