-- ===== src/Server/Requests/May.antt =====
-- What each request may do to the rows of a repository: the specification of the server.
use mathlib.Core.Path.{subst}
use dit.Prelude.{
  ℕ, arith, ◌+◌, ◌≡◌, ◌≢◌, refl, sym, ap, String, false, Option, none, some, List, [], ◌∷◌, ◌++◌,
}
use dit.Prelude.Dict
use dit.Merge.{MergeResult}
use dit.Server.Access.{Token}
use dit.Server.Tables.{Rule, Pull, Rows, find_pull, change_pull, max_pull_id}
use dit.Server.DiffStats.{Stats}
use dit.Server.Protection.{
  find_rule, change_rule, drop_rule, updated_rule, pattern_taken, with_rules,
}
use dit.Server.Reviews.{set_review, with_approvals}
use dit.Server.Pulls.{with_pulls, updated_pull, ref_name}
use dit.Server.Pulls.Merging.{after_merge}
use dit.Server.RefRoutes.{full_name, old_hash, refreshed, drop_ref}
use dit.Server.Changes.{
  aside, opened, edited, synced, joined, Changes, here, next, Changes-trans, open-ne-merged,
}
use dit.Server.Requests.{
  Request, open_pull, edit_pull, join_pull, resolve_pull, join_branches, review, add_rule,
  edit_rule, remove_rule, set_ref, remove_ref,
}

-- The heads of an open pull request are read again, and nothing else changes.
pub data Refreshed (rows rows' : Rows) : Type 0 where
  reread :
      (p : Pull) (source target : String) (base : Option String) (stats : Stats) (r : MergeResult)
      → find_pull rows.pulls p.pull_request_id ≡ some p
      → p.status ≡ "open"
      → Dict.get rows.refs p.source_ref ≡ some source
      → Dict.get rows.refs p.target_ref ≡ some target
      → rows'
        ≡ with_pulls (change_pull p.pull_request_id (refreshed source target base stats r)) rows
      → Refreshed rows rows'

-- Any number of times.
pub data AllRefreshed (rows : Rows) : Rows → Type 0 where
  no_more : AllRefreshed rows rows
  one_more : {mid last : Rows} → AllRefreshed rows mid → Refreshed mid last → AllRefreshed rows last

-- The one change that a request makes.
abbrev pub May : Token → Request → Rows → Rows → Type 0
May token (open_pull title source target author) rows rows' =
    (p : Pull) × (p.title ≡ title)
    × (p.status ≡ "open")
    × (p.merge_commit ≡ none)
    × (p.source_ref ≡ ref_name source)
    × (p.target_ref ≡ ref_name target)
    × (Dict.get rows.refs p.source_ref ≡ some p.source_commit)
    × (Dict.get rows.refs p.target_ref ≡ some p.target_commit)
    × (p.pull_request_id ≡ max_pull_id rows.pulls + 1)
    × (rows' ≡ with_pulls (λ pulls. pulls ++ p ∷ []) rows)
May token (edit_pull pr_id title status) rows rows' =
    (p : Pull) × (find_pull rows.pulls pr_id ≡ some p)
    × (p.status ≢ "merged")
    × (rows' ≡ with_pulls (change_pull pr_id (updated_pull title status)) rows)
May token (join_pull pr_id message author now) rows rows' =
    (p : Pull) × (h : String) × (find_pull rows.pulls pr_id ≡ some p)
    × (p.status ≢ "merged")
    × (p.status ≢ "closed")
    × (Dict.get rows.refs p.target_ref ≡ some p.target_commit)
    × (rows' ≡ after_merge p h rows)
May token (resolve_pull pr_id resolutions message author now) rows rows' =
    (p : Pull) × (from h : String) × (find_pull rows.pulls pr_id ≡ some p)
    × (p.status ≡ "open")
    × (Dict.get rows.refs p.target_ref ≡ some from)
    × (rows' ≡ after_merge p h rows)
May token (join_branches source target message author id now) rows rows' =
    (from h : String) × (Dict.get rows.refs (ref_name target) ≡ some from)
    × (rows' ≡ record rows { refs = Dict.put rows.refs (ref_name target) h })
May token (review pr_id status) rows rows' =
    (p : Pull) × (find_pull rows.pulls pr_id ≡ some p)
    × (rows' ≡ with_approvals (set_review pr_id token.id status) rows)
May token (add_rule r) rows rows' =
    (pattern_taken r.id r.branch_pattern rows.rules ≡ false)
    × (rows' ≡ with_rules (λ rules. rules ++ r ∷ []) rows)
May token (edit_rule id body) rows rows' =
    (r : Rule) × (find_rule rows.rules id ≡ some r)
    × (pattern_taken (updated_rule body r).id (updated_rule body r).branch_pattern rows.rules
        ≡ false)
    × (rows' ≡ with_rules (change_rule (updated_rule body r)) rows)
May token (remove_rule id) rows rows' =
    (r : Rule) × (find_rule rows.rules id ≡ some r) × (rows' ≡ with_rules (drop_rule id) rows)
May token (set_ref ref_type name old new) rows rows' =
    (Dict.get rows.refs (full_name ref_type name) ≡ old_hash old)
    × AllRefreshed (record rows { refs = Dict.put rows.refs (full_name ref_type name) new }) rows'
May token (remove_ref ref_type name) rows rows' =
    (h : String) × (Dict.get rows.refs (full_name ref_type name) ≡ some h)
    × (rows' ≡ drop_ref (full_name ref_type name) rows)

pub AllRefreshed-Changes : {rows last : Rows} → AllRefreshed rows last → Changes rows last
AllRefreshed-Changes no_more = here
AllRefreshed-Changes (one_more before (reread p source target base stats r there o s t e)) =
    next (AllRefreshed-Changes before) (synced p source target base stats r there o e)

pub find_pull_id :
    (ps : List Pull) (id : ℕ) (p : Pull) → find_pull ps id ≡ some p → p.pull_request_id ≡ id
unfolding find_pull
find_pull_id [] id p h = cc
find_pull_id (q ∷ ps) id p h = ground (arith, find_pull_id ps id p)

pub find_pull_self :
    (ps : List Pull) (id : ℕ) (p : Pull)
    → find_pull ps id ≡ some p
    → find_pull ps p.pull_request_id ≡ some p
find_pull_self ps id p h = subst (λ u. find_pull ps u ≡ some p) (sym (find_pull_id ps id p h)) h

-- No change of a request reopens a merged pull request or reuses a number.
pub May-Changes :
    (token : Token) (req : Request) {rows rows' : Rows}
    → May token req rows rows'
    → Changes rows rows'
May-Changes token (open_pull title source target author) (p, t, o, m, s, g, a, b, n, e) =
    next here (opened p o m n e)
May-Changes token (edit_pull pr_id title status) {rows} {rows'} (p, there, open_, e) = next here (
    edited p title status (find_pull_self rows.pulls pr_id p there) open_ (
      subst (λ id. rows' ≡ with_pulls (change_pull id (updated_pull title status)) rows)
        (sym (find_pull_id rows.pulls pr_id p there)) e))
May-Changes token (join_pull pr_id message author now) {rows} (p, h, there, o, c, matched, e) =
    next here (joined p p.target_commit h (find_pull_self rows.pulls pr_id p there) o matched e)
May-Changes token (resolve_pull pr_id rs message author now) {rows}
      (p, from, h, there, o, matched, e) =
    next here
      (joined p from h (find_pull_self rows.pulls pr_id p there) (open-ne-merged p o) matched e)
May-Changes token (join_branches source target message author id now) (from, h, matched, e) =
    next here (aside (ap (λ (u : Rows). u.pulls) e))
May-Changes token (review pr_id status) (p, there, e) =
    next here (aside (ap (λ (u : Rows). u.pulls) e))
May-Changes token (add_rule r) (new, e) = next here (aside (ap (λ (u : Rows). u.pulls) e))
May-Changes token (edit_rule id body) (r, there, new, e) =
    next here (aside (ap (λ (u : Rows). u.pulls) e))
May-Changes token (remove_rule id) (r, there, e) = next here (aside (ap (λ (u : Rows). u.pulls) e))
May-Changes token (set_ref ref_type name old new) (matched, all) =
    Changes-trans (next here (aside refl)) (AllRefreshed-Changes all)
May-Changes token (remove_ref ref_type name) (h, there, e) =
    next here (aside (ap (λ (u : Rows). u.pulls) e))
