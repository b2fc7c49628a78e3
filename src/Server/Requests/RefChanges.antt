-- ===== src/Server/Requests/RefChanges.antt =====
-- The changes that requests on branches, rules and reviews make, and the refresh of pull requests.
use dit.Server.Pulls.Merging.{ref_is-true}
use dit.Prelude.{
  ◌≡◌, some, ℕ, ◌&&◌, refl, String, Bool, true, false, not, Option, none, some, List, opt_eq,
  is_some, nat_eq, ltb, Bool-cases, Option-cases, inl, inr,
}
use dit.Prelude.Dict
use dit.Server.{Action, ◌>>=◌, ◌>>◌, pure, commit}
use dit.Server.Exits.{Ends, exit_refuse_if, exit_found, exit_runs, exit_writes, exit_resolve_branch}
use dit.Server.Tables.{Rows, Rule, find_pull, ref_is, count_approved}
use dit.Server.Access.{Token, is_allowed, resolve_actor}
use dit.Server.Protection.{
  rule_for, RuleUpdate, updated_rule, find_rule, pattern_taken, save_rule, create_rule, update_rule,
  delete_rule, with_rules,
}
use dit.Server.Reviews.{submit_review}
use dit.Server.MergeCommit.{Storage, merge_base, do_merge}
use dit.Server.Pulls.{advance_ref, ref_name}
use dit.Server.Merges.{check_count, check_rule, merge_heads, merge_branches}
use dit.Server.RefRoutes.{full_name, delete_ref}
use dit.Server.Requests.May.{May}
use dit.Server.Requests.{alone, join_branches, review, add_rule, edit_rule, remove_rule, remove_ref}
use dit.Server.Requests.PullChanges.{at_rest, Allowed}

module _ {S : Type 0} (rows : Rows) where
  pub save_rule-Allowed :
      (M : Rows → Type 0) (r : Rule) (f : List Rule → List Rule) (s : S)
      → (pattern_taken r.id r.branch_pattern rows.rules ≡ false → M (with_rules f rows))
      → Ends (Allowed rows M) (save_rule r f (at_rest rows s))
  unfolding save_rule
  save_rule-Allowed M r f s k =
      exit_refuse_if (Allowed rows M) (pattern_taken r.id r.branch_pattern rows.rules) 409 _
        (at_rest rows s) refl k

  pub create_rule-Allowed :
      (token : Token) (r : Rule) (s : S)
      → Ends (Allowed rows (May token (add_rule r) rows)) (create_rule token r (at_rest rows s))
  unfolding create_rule
  create_rule-Allowed token r s =
      let Q = Allowed rows (May token (add_rule r) rows) in
      exit_refuse_if Q (not (is_allowed 50 token)) 403 _ (at_rest rows s) refl
        λ allowed. save_rule-Allowed (May token (add_rule r) rows) r _ s λ new. (new, refl)

  pub update_rule-Allowed :
      (token : Token) (id : ℕ) (body : RuleUpdate) (s : S)
      → Ends
          (Allowed rows (May token (edit_rule id body) rows))
          (update_rule token id body (at_rest rows s))
  unfolding update_rule
  update_rule-Allowed token id body s =
      let Q = Allowed rows (May token (edit_rule id body) rows) in
      exit_refuse_if Q (not (is_allowed 50 token)) 403 _ (at_rest rows s) refl λ allowed.
        exit_found Q (find_rule rows.rules id) 404 _ (at_rest rows s) refl λ r there.
          save_rule-Allowed (May token (edit_rule id body) rows) (updated_rule body r) _ s
            λ new. (r, there, new, refl)

  pub delete_rule-Allowed :
      (token : Token) (id : ℕ) (s : S)
      → Ends
          (Allowed rows (May token (remove_rule id) rows))
          (delete_rule token id (at_rest rows s))
  unfolding delete_rule
  delete_rule-Allowed token id s =
      let Q = Allowed rows (May token (remove_rule id) rows) in
      exit_refuse_if Q (not (is_allowed 50 token)) 403 _ (at_rest rows s) refl λ allowed.
        exit_found Q (find_rule rows.rules id) 404 _ (at_rest rows s) refl
          λ r there. (r, there, refl)

  pub submit_review-Allowed :
      (token : Token) (pr_id : ℕ) (status : String) (s : S)
      → Ends
          (Allowed rows (May token (review pr_id status) rows))
          (submit_review token pr_id status (at_rest rows s))
  unfolding submit_review
  submit_review-Allowed token pr_id status s =
      let Q = Allowed rows (May token (review pr_id status) rows) in
      exit_refuse_if Q (not (is_allowed 20 token)) 403 _ (at_rest rows s) refl λ allowed.
        exit_found Q (find_pull rows.pulls pr_id) 404 _ (at_rest rows s) refl
          λ p there. (p, there, refl)

  pub delete_ref-Allowed :
      (token : Token) (ref_type name : String) (s : S)
      → Ends
          (Allowed rows (May token (remove_ref ref_type name) rows))
          (delete_ref token ref_type name (at_rest rows s))
  unfolding delete_ref
  delete_ref-Allowed token ref_type name s =
      let Q = Allowed rows (May token (remove_ref ref_type name) rows) in
      exit_refuse_if Q (not (is_allowed 50 token)) 403 _ (at_rest rows s) refl λ allowed.
        exit_found Q (Dict.get rows.refs (full_name ref_type name)) 404 _ (at_rest rows s) refl
          λ h there. (h, there, refl)

  -- A branch that moves and nothing else.
  advance-Allowed :
      (M : Rows → Type 0) (name old new : String) {B : Type 0} (b : B) (s : S)
      → (Dict.get rows.refs name ≡ some old
          → M (record rows { refs = Dict.put rows.refs name new }))
      → Ends (Allowed rows M) ((advance_ref name old new >> (commit >> pure b)) (at_rest rows s))
  advance-Allowed M name old new b s k = elim (Bool-cases (ref_is (Dict.get rows.refs name) old)) [
    | inl yes_ ↦ rw yes_ (k (ref_is-true _ old yes_))
    | inr other ↦ rw other refl
  ]

  count-Allowed :
      (M : Rows → Type 0) (rule : Rule) (id : Option ℕ) {B : Type 0} (f : Unit {0} → Action S B)
      (s : S)
      → Ends (Allowed rows M) (f tt (at_rest rows s))
      → Ends (Allowed rows M) ((check_count rule id >>= f) (at_rest rows s))
  count-Allowed M rule none f s k = refl
  count-Allowed M rule (some id) f s k = elim (Option-cases (find_pull rows.pulls id)) [
    | inl absent ↦ rw absent refl
    | inr (p, there) ↦
        elim (Bool-cases (ltb (count_approved id rows.approvals) rule.required_approvals)) [
          | inl few ↦ rw (there, few) refl
          | inr enough ↦ rw (there, enough) k
        ]
  ]

  check-Allowed :
      (M : Rows → Type 0) (rule : Option Rule) (id : Option ℕ) {B : Type 0}
      (f : Unit {0} → Action S B) (s : S)
      → Ends (Allowed rows M) (f tt (at_rest rows s))
      → Ends (Allowed rows M) ((check_rule rule id >>= f) (at_rest rows s))
  check-Allowed M none id f s k = k
  check-Allowed M (some rule) id f s k = elim (Bool-cases (rule.require_pr && not (is_some id))) [
    | inl lacks ↦ rw lacks refl
    | inr given ↦ elim (Bool-cases (nat_eq rule.required_approvals 0)) [
      | inl free ↦ rw (given, free) k
      | inr wanted ↦ rw (given, wanted) (count-Allowed M rule id f s k)
    ]
  ]

module _ (storage : Storage) (rows : Rows) where
  merge_heads-Allowed :
      (M : Rows → Type 0) (target_ref target source author message : String) (now : ℕ)
      (base : Option String) (s : storage.State)
      → ((h : String)
          → Dict.get rows.refs target_ref ≡ some target
          → M (record rows { refs = Dict.put rows.refs target_ref h }))
      → Ends (Allowed rows M) (
          merge_heads storage alone target_ref target source author message now base
            (at_rest rows s))
  merge_heads-Allowed M target_ref target source author message now base s k =
      elim (Bool-cases (opt_eq base (some target))) [
        | inl up ↦
            rw up (advance-Allowed rows M target_ref target source (true, source) s (k source))
        | inr no_ ↦ rw no_ (
            exit_writes (Allowed rows M) (do_merge storage base target source author message now) _
              (at_rest rows s) refl
              λ rh s'.
                exit_found (Allowed rows M) rh.1 409 _ (at_rest rows s') refl
                  λ c written. advance-Allowed rows M target_ref target c (false, c) s' (k c))
      ]

  pub merge_branches-Allowed :
      (fnmatch : String → String → Bool) (token : Token)
      (source_branch target_branch message : String) (author : Option String)
      (pull_request_id : Option ℕ) (now : ℕ) (s : storage.State)
      → Ends
          (Allowed rows (
            May token
              (join_branches source_branch target_branch message author pull_request_id now)
              rows))
          (merge_branches storage fnmatch token alone alone source_branch target_branch message
            author pull_request_id now
            (at_rest rows s))
  unfolding merge_branches
  merge_branches-Allowed fnmatch token source_branch target_branch message author pull_request_id
        now s =
      let Q = Allowed rows (
        May token (join_branches source_branch target_branch message author pull_request_id now)
          rows) in
      exit_refuse_if Q (not (is_allowed 30 token)) 403 _ (at_rest rows s) refl λ allowed.
        exit_resolve_branch Q source_branch _ (at_rest rows s) refl λ source found_s.
          exit_resolve_branch Q target_branch _ (at_rest rows s) refl λ target found_t.
            check-Allowed rows
              (May token
                (join_branches source_branch target_branch message author pull_request_id now) rows)
              (rule_for fnmatch target_branch rows.rules) pull_request_id _ s
              (exit_runs Q (merge_base storage target source) _ (at_rest rows s) refl λ base.
                merge_heads-Allowed
                  (May token
                    (join_branches source_branch target_branch message author pull_request_id now)
                    rows)
                  (ref_name target_branch) target source (resolve_actor token author) message now
                  base s (λ h matched. (target, h, matched, refl)))
