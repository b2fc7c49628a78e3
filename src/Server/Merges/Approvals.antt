-- ===== src/Server/Merges/Approvals.antt =====
-- When the check for approvals lets a merge of branches pass.
use dit.Prelude.{
  ℕ, ◌≤◌, ◌≡◌, refl, ◌⊎◌, ◌↔◌, inl, inr, String, Bool, true, false, not, ◌&&◌, Option, none, some,
  is_some, nat_eq, ltb, arith, Bool-cases,
}
use dit.Server.{World, done}
use dit.Server.Actions.{past_refuse_if, past_found, refuse_if_done, not_refused}
use dit.Server.Tables.{Pull, Rows, Rule, find_pull, count_approved}
use dit.Server.Protection.{rule_for}
use dit.Server.Merges.{check_count, check_rule, check_merge_approvals}

-- The number that a merge names is that of a pull request with the approvals that the rule asks for.
abbrev pub IsApproved : Rule → Option ℕ → Rows → Type 0
IsApproved rule pull_request_id rows =
    (id : ℕ) × (p : Pull) × (pull_request_id ≡ some id)
    × (find_pull rows.pulls id ≡ some p)
    × (rule.required_approvals ≤ count_approved id rows.approvals)

-- What a rule asks of a merge.
abbrev pub Passes : Option Rule → Option ℕ → Rows → Type 0
Passes none id rows = Unit
Passes (some rule) id rows =
    (rule.require_pr ≡ true → is_some id ≡ true)
    × ((rule.required_approvals ≡ 0) ⊎ IsApproved rule id rows)

module _ {S : Type 0} where
  check_count-IsApproved :
      (rule : Rule) (id : Option ℕ) (w : World S)
      → IsApproved rule id w.pending
      → check_count rule id w ≡ (done tt, w)
  check_count-IsApproved rule id w (i, p, named, there, enough) =
      let few : ltb (count_approved i w.pending.approvals) rule.required_approvals ≡ false =
        ground arith in
      rw (named, there, few) refl

  IsApproved-check_count :
      (rule : Rule) (id : Option ℕ) (w : World S)
      → check_count rule id w ≡ (done tt, w)
      → IsApproved rule id w.pending
  IsApproved-check_count rule none w run = absurd (not_refused run)
  IsApproved-check_count rule (some i) w run =
      let (p, there, run₁) = past_found (find_pull w.pending.pulls i) 404 _ w run in
      let (enough, _) =
        refuse_if_done (ltb (count_approved i w.pending.approvals) rule.required_approvals) 403 w
          run₁ in
      (i, p, refl, there, ground arith)

  check_rule-Passes :
      (rule : Option Rule) (id : Option ℕ) (w : World S)
      → Passes rule id w.pending
      → check_rule rule id w ≡ (done tt, w)
  check_rule-Passes none id w h = refl
  check_rule-Passes (some rule) id w (given, inl free) =
      let named : (rule.require_pr && not (is_some id)) ≡ false = ground arith in
      rw (named, free) refl
  check_rule-Passes (some rule) id w (given, inr approved) =
      let named : (rule.require_pr && not (is_some id)) ≡ false = ground arith in
      elim (Bool-cases (nat_eq rule.required_approvals 0)) [
        | inl free ↦ rw (named, free) refl
        | inr wanted ↦ rw (named, wanted) (check_count-IsApproved rule id w approved)
      ]

  Passes-check_rule :
      (rule : Option Rule) (id : Option ℕ) (w : World S)
      → check_rule rule id w ≡ (done tt, w)
      → Passes rule id w.pending
  Passes-check_rule none id w run = tt
  Passes-check_rule (some rule) id w run =
      let (named, run₁) = past_refuse_if (rule.require_pr && not (is_some id)) 403 _ w run in
      (
        (λ wants. ground arith),
        elim (Bool-cases (nat_eq rule.required_approvals 0)) [
          | inl free ↦ inl (ground arith)
          | inr wanted ↦ inr (IsApproved-check_count rule id w (rw wanted at run₁))
        ],
      )

  -- The check before a merge of branches passes exactly where no rule matches with the target
  -- branch, or the first that does finds a pull request named if it requires one, and finds enough
  -- approvals of the one that is named if it wants any. Nothing relates that pull request to the
  -- branches of the merge.
  pub check_merge_approvals_lem :
      (fnmatch : String → String → Bool) (target_branch : String) (pull_request_id : Option ℕ)
      (w : World S)
      → check_merge_approvals fnmatch target_branch pull_request_id w ≡ (done tt, w)
        ↔ Passes (rule_for fnmatch target_branch w.pending.rules) pull_request_id w.pending
  check_merge_approvals_lem fnmatch target_branch pull_request_id w = (
    Passes-check_rule (rule_for fnmatch target_branch w.pending.rules) pull_request_id w,
    check_rule-Passes (rule_for fnmatch target_branch w.pending.rules) pull_request_id w,
  )
