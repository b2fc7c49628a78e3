-- ===== src/Server/Merges.antt =====
-- server/routes/merge.py: merges of branches without a pull request, or naming one.
pub mod Approvals
use dit.Prelude.{
  ℕ, ◌≡◌, String, Bool, true, false, not, ◌&&◌, Option, none, some, List, [], ◌∷◌, is_some, opt_eq,
  nat_eq, ltb, if◌then◌else◌,
}
use dit.Prelude.Dict
use dit.Merge.{MergeResult}
use dit.Server.{
  Action, ◌>>=◌, ◌>>◌, pure, refuse, refuse_if, found, gets, commit, wait, runs, writes,
}
use dit.Server.Tables.{Rule, Rows, find_pull, count_approved}
use dit.Server.Access.{Token, resolve_actor}
use dit.Server.Protection.{permit, rule_for}
use dit.Server.DiffStats.{conflict_files}
use dit.Server.MergeCommit.{Storage, merge_base, merge_trees, do_merge, has_conflicts}
use dit.Server.Pulls.{resolve_branch, advance_ref, get_pull, compute_mergeability}

module _ {S : Type 0} where
  -- The part of the check for a rule that wants approvals.
  abbrev pub check_count : Rule → Option ℕ → Action S (Unit {0})
  check_count rule none = refuse 403
  check_count rule (some id) = do
    p ← get_pull id
    approved ← gets (λ rows. count_approved id rows.approvals)
    refuse_if (ltb approved rule.required_approvals) 403

  abbrev pub check_rule : Option Rule → Option ℕ → Action S (Unit {0})
  check_rule none id = pure tt
  check_rule (some rule) id = do
    refuse_if (rule.require_pr && not (is_some id)) 403
    if nat_eq rule.required_approvals 0 then pure tt else check_count rule id

  -- `_check_merge_approvals`
  abbrev pub check_merge_approvals :
      (String → String → Bool) → String → Option ℕ → Action S (Unit {0})
  check_merge_approvals fnmatch target_branch pull_request_id = do
    rule ← gets (λ rows. rule_for fnmatch target_branch rows.rules)
    check_rule rule pull_request_id

module _ (storage : Storage) where
  -- Whether there are no conflicts, the merge base, and the conflicts.
  unfoldable pub merge_preview :
      Token → String → String → Action storage.State (Bool × Option String × List (String × String))
  merge_preview token source_branch target_branch = do
    permit 10 token
    (source_ref, source) ← resolve_branch source_branch
    (target_ref, target) ← resolve_branch target_branch
    (base, r) ← compute_mergeability storage target source
    pure (not (has_conflicts r), base, conflict_files r.conflicts)

  -- `merge`, from the merge base on.
  abbrev pub merge_heads :
      (Rows → Rows)
      → String
      → String
      → String
      → String
      → String
      → ℕ
      → Option String
      → Action storage.State (Bool × String)
  merge_heads others target_ref target source author message now base =
      let forward : Action storage.State (Bool × String) = (do
        advance_ref target_ref target source
        commit
        pure (true, source)) in
      let three_way : Action storage.State (Bool × String) = (do
        (r, h) ← writes (do_merge storage base target source author message now)
        wait others
        c ← found h 409
        advance_ref target_ref target c
        commit
        pure (false, c)) in
      if opt_eq base (some target) then forward else three_way

  unfoldable pub merge_branches :
      (String → String → Bool)
      → Token
      → (Rows → Rows)
      → (Rows → Rows)
      → String
      → String
      → String
      → Option String
      → Option ℕ
      → ℕ
      → Action storage.State (Bool × String)
  merge_branches fnmatch token others₁ others₂ source_branch target_branch message author
        pull_request_id now =
      do
        permit 30 token
        (source_ref, source) ← resolve_branch source_branch
        (target_ref, target) ← resolve_branch target_branch
        check_merge_approvals fnmatch target_branch pull_request_id
        base ← runs (merge_base storage target source)
        wait others₁
        merge_heads others₂ target_ref target source (resolve_actor token author) message now base
