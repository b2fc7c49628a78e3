-- ===== src/Server/RefRoutes/Protected.antt =====
-- What a protected branch is kept from by `cas_update_ref`.
use mathlib.Core.Path.{subst}
use dit.Prelude.{
  ℕ, ◌≡◌, ◌⊎◌, refl, sym, ap, ◌∙◌, String, Bool, true, false, not, Option, none, some, ◌==◌, opt_eq,
  opt_eq→eq, arith, Bool-cases, inl, inr, ok, eq_of_test,
}
use dit.Prelude.Dict
use dit.Server.{World, done, Action, ◌>>=◌, request, refuse_if}
use dit.Server.Actions.{past_refuse_if, past_runs, refuse_if_done}
use dit.Server.Exits.{Ends, Both, Ends-either, either-Ends, exit_refuse_if, exit_runs, exit_check}
use dit.Server.Tables.{Rows, Rule}
use dit.Server.Access.{Token, is_allowed}
use dit.Server.Protection.{rule_for}
use dit.Server.MergeCommit.{Storage, merge_base}
use dit.Server.RefRoutes.{
  full_name, old_hash, check_matched, check_fast_forward, check_branch, cas_checked, cas_update_ref,
}
use dit.Server.Pulls.Merging.{true_of_not}

pub refuse_if-same : {S : Type 0} (b : Bool) (code : ℕ) (w : World S) → (refuse_if b code w).1 ≡ w
refuse_if-same true code w = refl
refuse_if-same false code w = refl

pub check_matched-same :
    {S : Type 0} (o : Option String) (old : String) (w : World S) → (check_matched o old w).1 ≡ w
check_matched-same none old w = refl
check_matched-same (some h) old w = refuse_if-same (not (h == old)) 409 w

module _ (storage : Storage) where
  -- The checks of a ref that is there leave the world.
  check_fast_forward-same :
      (rule : Option Rule) (old new : String) (w : World storage.State)
      → (check_fast_forward storage rule old new w).1 ≡ w
  check_fast_forward-same none old new w = refl
  check_fast_forward-same (some rule) old new w = elim (Bool-cases rule.require_pr) [
    | inl wanted ↦ rw wanted refl
    | inr free ↦ elim (Bool-cases rule.block_force_push) [
      | inr any ↦ rw (free, any) refl
      | inl forward ↦
          rw (free, forward)
            (Ends-either (λ u. u ≡ w) _
              (exit_runs (Both (λ u. u ≡ w)) (merge_base storage old new) _ w refl λ base.
                either-Ends (λ u. u ≡ w) _ (refuse_if-same (not (opt_eq base (some old))) 403 w)))
    ]
  ]

  pub check_branch-same :
      (fnmatch : String → String → Bool) (ref_type name old new : String) (w : World storage.State)
      → (check_branch storage fnmatch ref_type name old new w).1 ≡ w
  check_branch-same fnmatch ref_type name old new w = elim (Bool-cases (ref_type == "heads")) [
    | inl yes_ ↦ rw yes_ (check_fast_forward-same (rule_for fnmatch name w.pending.rules) old new w)
    | inr other ↦ rw other refl
  ]

  -- The rule lets the branch move from `old` to `new`.
  abbrev pub Lets : Rule → String → String → storage.State → Type 0
  Lets rule old new s =
      (rule.require_pr ≡ false)
      × (rule.block_force_push ≡ true → merge_base storage old new s ≡ some (ok (some old)))

  check_fast_forward_done :
      (rule : Rule) (old new : String) (w w' : World storage.State)
      → check_fast_forward storage (some rule) old new w ≡ (done tt, w')
      → Lets rule old new w.objects
  check_fast_forward_done rule old new w w' run =
      let (free, run₁) = past_refuse_if rule.require_pr 403 _ w run in
      (
        free,
        elim (Bool-cases rule.block_force_push) [
          | inr any ↦ λ blocks. absurd (ground (arith, any, blocks))
          | inl forward ↦ λ blocks.
              let (base, based, run₂) =
                past_runs (merge_base storage old new) _ w (rw forward at run₁) in
              let (same, _) = refuse_if_done (not (opt_eq base (some old))) 403 w run₂ in
              based ∙ ap (λ u. some (ok u)) (opt_eq→eq base (some old) (true_of_not _ same))
        ],
      )

  -- What is to be shown of the world that the request leaves.
  abbrev Kept :
      Rows → storage.State → Rule → String → String → String → World storage.State → Type 0
  Kept rows s rule name h new w =
      (Dict.get w.committed.refs (full_name "heads" name) ≡ some h) ⊎ Lets rule h new s

  check_branch_done :
      (fnmatch : String → String → Bool) (name old new : String) (rule : Rule)
      (w w' : World storage.State)
      → rule_for fnmatch name w.pending.rules ≡ some rule
      → check_branch storage fnmatch "heads" name old new w ≡ (done tt, w')
      → Lets rule old new w.objects
  check_branch_done fnmatch name old new rule w w' ruled run =
      check_fast_forward_done rule old new w w' (rw ruled at run)

  cas_checked-Kept :
      (fnmatch : String → String → Bool) (name h new : String) (old : Option String) (rule : Rule)
      (rows : Rows) (s : storage.State) {B : Type 0} (f : Unit {0} → Action storage.State B)
      → rule_for fnmatch name rows.rules ≡ some rule
      → Dict.get rows.refs (full_name "heads" name) ≡ some h
      → Ends (Both (Kept rows s rule name h new)) (
          (cas_checked storage fnmatch "heads" name old new >>= f)
            (record { committed = rows; pending = rows; objects = s }))
  cas_checked-Kept fnmatch name h new none rule rows s f ruled there = rw there (inl there)
  cas_checked-Kept fnmatch name h new (some old) rule rows s f ruled there =
      let w : World storage.State = record { committed = rows; pending = rows; objects = s } in
      exit_check (Both (Kept rows s rule name h new))
        (check_branch storage fnmatch "heads" name old new w) _ f w
        (check_branch-same fnmatch "heads" name old new w) (inl there)
        λ a w' run.
          let lets = check_branch_done fnmatch name old new rule w w' ruled run in
          exit_check (Both (Kept rows s rule name h new))
            (check_matched (Dict.get rows.refs (full_name "heads" name)) old w) _ f w
            (check_matched-same _ old w) (inl there)
            λ a' w₁ matched.
              let (same, _) = refuse_if_done (not (h == old)) 409 w (rw there at matched) in
              either-Ends (Kept rows s rule name h new) _ (
                inr (
                  subst (λ u. Lets rule u new s) (sym (eq_of_test h old (true_of_not _ same)))
                    lets))

  -- If a branch exists and a protection rule matches with it, then after any request to
  -- `cas_update_ref` for it, whatever its token, hash and outcome, the branch is where it was, or
  -- the rule does not require pull requests and, where it blocks forced pushes, the old commit is
  -- the merge base of the old and the new one: the update is a fast-forward.
  pub cas_update_ref-protected :
      (fnmatch : String → String → Bool) (token : Token) (name h new : String) (old : Option String)
      (rule : Rule) (rows : Rows) (s : storage.State)
      → rule_for fnmatch name rows.rules ≡ some rule
      → Dict.get rows.refs (full_name "heads" name) ≡ some h
      → (Dict.get
            (request
              (cas_update_ref storage fnmatch token "heads" name old new)
              rows
              s).1.committed.refs
            (full_name "heads" name)
          ≡ some h)
        ⊎ Lets rule h new s
  unfolding cas_update_ref
  cas_update_ref-protected fnmatch token name h new old rule rows s ruled there =
      Ends-either (Kept rows s rule name h new) _ (
        exit_refuse_if (Both (Kept rows s rule name h new)) (not (is_allowed 30 token)) 403 _
          (record { committed = rows; pending = rows; objects = s }) (inl there)
          λ allowed. cas_checked-Kept fnmatch name h new (old_hash old) rule rows s _ ruled there)
