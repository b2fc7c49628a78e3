-- ===== src/Server/RefRoutes.antt =====
-- server/routes/refs.py. The webhooks that an update fires are left out: they only send requests.
pub mod Protected
use Prim.Native.String.{◌++◌ as str_append}
use dit.Prelude.{
  ℕ, ◌≡◌, String, Bool, true, false, not, ◌&&◌, ◌||◌, Option, none, some, List, [], ◌∷◌, ◌==◌,
  is_some, opt_eq, if◌then◌else◌,
}
use dit.Prelude.Dict
use dit.Prelude.Dict.{Dict}
use dit.Merge.{MergeResult}
use dit.Server.{
  Action, ◌>>=◌, ◌>>◌, pure, refuse, refuse_if, found, gets, modify, commit, reads, runs, writes,
}
use dit.Server.Tables.{Rule, Pull, Rows, change_pull, ref_is, update_ref}
use dit.Server.Access.{Token}
use dit.Server.Protection.{permit, rule_for, or_old}
use dit.Server.DiffStats.{Stats, conflict_files, compute_diff_stats}
use dit.Server.MergeCommit.{Storage, merge_base, has_conflicts}
use dit.Server.Pulls.{with_pulls, compute_mergeability}

abbrev pub full_name : String → String → String
full_name ref_type name = str_append ref_type (str_append "/" name)

-- `body.old`, where it is neither `None` nor empty
abbrev pub old_hash : Option String → Option String
old_hash none = none
old_hash (some h) = if h == "" then none else some h

-- The open pull requests that have the ref as source or target.
unfoldable pub open_pulls_of : String → List Pull → List Pull
open_pulls_of ref [] = []
open_pulls_of ref (p ∷ ps) =
    let rest = open_pulls_of ref ps in
    if p.status == "open" && (p.source_ref == ref || p.target_ref == ref) then p ∷ rest else rest

abbrev pub refreshed : String → String → Option String → Stats → MergeResult → Pull → Pull
refreshed source target base stats r p = record p {
  source_commit = source;
  target_commit = target;
  base_commit = or_old base p.base_commit;
  stats_added = stats.stats_added;
  stats_removed = stats.stats_removed;
  stats_refreshed = stats.stats_refreshed;
  is_mergeable = not (has_conflicts r);
  conflict_files = conflict_files r.conflicts;
}

abbrev pub set_ref : String → String → Rows → Rows
set_ref name h rows = record rows { refs = Dict.put rows.refs name h }

abbrev pub drop_ref : String → Rows → Rows
drop_ref name rows = record rows { refs = Dict.pop rows.refs name }

module _ {S : Type 0} (token : Token) where
  unfoldable pub get_ref : String → String → Action S String
  get_ref ref_type name = do
    permit 10 token
    target ← gets (λ rows. Dict.get rows.refs (full_name ref_type name))
    found target 404

  unfoldable pub delete_ref : String → String → Action S (Unit {0})
  delete_ref ref_type name = do
    permit 50 token
    target ← gets (λ rows. Dict.get rows.refs (full_name ref_type name))
    h ← found target 404
    modify (drop_ref (full_name ref_type name))
    commit

-- A failed compare-and-set: 404 where there is no such ref, else 409.
abbrev pub check_matched : {S : Type 0} → Option String → String → Action S (Unit {0})
check_matched none old = refuse 404
check_matched (some h) old = refuse_if (not (h == old)) 409

module _ (storage : Storage) where
  -- The body of the loop of `_update_prs_for_ref_change`, with the two heads.
  abbrev pub refresh_pull : Pull → Option String → Option String → Action storage.State (Unit {0})
  refresh_pull p (some source) (some target) = do
    base ← runs (merge_base storage target source)
    stats ← reads (λ s. compute_diff_stats storage s source target)
    (_, r) ← compute_mergeability storage target source
    modify (with_pulls (change_pull p.pull_request_id (refreshed source target base stats r)))
  refresh_pull p _ _ = pure tt

  unfoldable pub refresh_pulls : List Pull → Action storage.State (Unit {0})
  refresh_pulls [] = pure tt
  refresh_pulls (p ∷ ps) = do
    source ← gets (λ rows. Dict.get rows.refs p.source_ref)
    target ← gets (λ rows. Dict.get rows.refs p.target_ref)
    refresh_pull p source target
    refresh_pulls ps

  -- The commit is only made where there are pull requests; without them it would change nothing.
  unfoldable pub update_prs_for_ref_change : String → Action storage.State (Unit {0})
  update_prs_for_ref_change ref = do
    prs ← gets (λ rows. open_pulls_of ref rows.pulls)
    refresh_pulls prs
    commit

  -- A protected branch: a rule may want a pull request, or a fast-forward.
  abbrev pub check_fast_forward : Option Rule → String → String → Action storage.State (Unit {0})
  check_fast_forward none old new = pure tt
  check_fast_forward (some rule) old new = do
    refuse_if rule.require_pr 403
    let check : Action storage.State (Unit {0}) = (do
      base ← runs (merge_base storage old new)
      refuse_if (not (opt_eq base (some old))) 403)
    if rule.block_force_push then check else pure tt

  abbrev pub check_branch :
      (String → String → Bool) → String → String → String → String → Action storage.State (Unit {0})
  check_branch fnmatch ref_type name old new = do
    rule ← gets (λ rows. rule_for fnmatch name rows.rules)
    if ref_type == "heads" then check_fast_forward rule old new else pure tt

  abbrev pub cas_checked :
      (String → String → Bool)
      → String
      → String
      → Option String
      → String
      → Action storage.State (Unit {0})
  cas_checked fnmatch ref_type name none new = do
    existing ← gets (λ rows. Dict.get rows.refs (full_name ref_type name))
    refuse_if (is_some existing) 409
    modify (set_ref (full_name ref_type name) new)
    commit
  cas_checked fnmatch ref_type name (some old) new = do
    check_branch fnmatch ref_type name old new
    target ← gets (λ rows. Dict.get rows.refs (full_name ref_type name))
    check_matched target old
    modify (λ rows. update_ref rows (full_name ref_type name) old new)
    commit

  unfoldable pub cas_update_ref :
      (String → String → Bool)
      → Token
      → String
      → String
      → Option String
      → String
      → Action storage.State (Unit {0})
  cas_update_ref fnmatch token ref_type name old new = do
    permit 30 token
    cas_checked fnmatch ref_type name (old_hash old) new
    update_prs_for_ref_change (full_name ref_type name)
