-- ===== src/Server/Protection.antt =====
-- server/routes/branch_protection.py, and the look-up of the rule for a branch. A pattern is unique
-- in a repository: a second one is an `IntegrityError`, and the request is refused with 409.
use dit.Prelude.{
  ℕ, String, Bool, true, false, not, Option, none, some, List, [], ◌∷◌, ◌++◌, ◌==◌, nat_eq,
  if◌then◌else◌,
}
use dit.Server.{Action, ◌>>=◌, ◌>>◌, pure, refuse_if, found, gets, modify, commit}
use dit.Server.Tables.{Rule, Rows}
use dit.Server.Access.{Token, is_allowed}

-- `Depends(require_permission(…))`, for a permission of this level
abbrev pub permit : {S : Type 0} → ℕ → Token → Action S (Unit {0})
permit level token = refuse_if (not (is_allowed level token)) 403

-- The first rule whose pattern `fnmatch` matches with the branch.
unfoldable pub rule_for : (String → String → Bool) → String → List Rule → Option Rule
rule_for fnmatch branch [] = none
rule_for fnmatch branch (r ∷ rs) =
    if fnmatch branch r.branch_pattern then some r else rule_for fnmatch branch rs

unfoldable pub find_rule : List Rule → ℕ → Option Rule
find_rule [] id = none
find_rule (r ∷ rs) id = if nat_eq r.id id then some r else find_rule rs id

unfoldable pub change_rule : Rule → List Rule → List Rule
change_rule r [] = []
change_rule r (q ∷ qs) =
    let rest = change_rule r qs in if nat_eq q.id r.id then r ∷ rest else q ∷ rest

unfoldable pub drop_rule : ℕ → List Rule → List Rule
drop_rule id [] = []
drop_rule id (q ∷ qs) = let rest = drop_rule id qs in if nat_eq q.id id then rest else q ∷ rest

-- Another rule has the pattern: the constraint of the table.
unfoldable pub pattern_taken : ℕ → String → List Rule → Bool
pattern_taken id pattern' [] = false
pattern_taken id pattern' (q ∷ qs) =
    let rest = pattern_taken id pattern' qs in
    if nat_eq q.id id then rest else if q.branch_pattern == pattern' then true else rest

abbrev pub with_rules : (List Rule → List Rule) → Rows → Rows
with_rules f rows = record rows { rules = f rows.rules }

-- `UpdateBranchProtectionRequest`
pub record RuleUpdate : Type 0 where
  pub branch_pattern : Option String
  pub require_pr : Option Bool
  pub required_approvals : Option ℕ
  pub block_force_push : Option Bool
  pub auto_delete_branch : Option Bool

-- `if body.x is not None: rule.x = body.x`
abbrev pub or_old : {A : Type 0} → Option A → A → A
or_old none a = a
or_old (some b) a = b

unfoldable pub updated_rule : RuleUpdate → Rule → Rule
updated_rule body r = record r {
  branch_pattern = or_old body.branch_pattern r.branch_pattern;
  require_pr = or_old body.require_pr r.require_pr;
  required_approvals = or_old body.required_approvals r.required_approvals;
  block_force_push = or_old body.block_force_push r.block_force_push;
  auto_delete_branch = or_old body.auto_delete_branch r.auto_delete_branch;
}

-- The write of a rule: refused where its pattern is another's.
unfoldable pub save_rule : {S : Type 0} → Rule → (List Rule → List Rule) → Action S Rule
save_rule r f = do
  taken ← gets (λ rows. pattern_taken r.id r.branch_pattern rows.rules)
  refuse_if taken 409
  modify (with_rules f)
  commit
  pure r

module _ {S : Type 0} (token : Token) where
  unfoldable pub list_rules : Action S (List Rule)
  list_rules = do permit 10 token; gets (λ rows. rows.rules)

  -- The `id` of the rule is the key that the database gives to its row.
  unfoldable pub create_rule : Rule → Action S Rule
  create_rule body = do permit 50 token; save_rule body (λ rules. rules ++ body ∷ [])

  unfoldable pub update_rule : ℕ → RuleUpdate → Action S Rule
  update_rule rule_id body = do
    permit 50 token
    found_rule ← gets (λ rows. find_rule rows.rules rule_id)
    r ← found found_rule 404
    save_rule (updated_rule body r) (change_rule (updated_rule body r))

  unfoldable pub delete_rule : ℕ → Action S (Unit {0})
  delete_rule rule_id = do
    permit 50 token
    found_rule ← gets (λ rows. find_rule rows.rules rule_id)
    r ← found found_rule 404
    modify (with_rules (drop_rule rule_id))
    commit
