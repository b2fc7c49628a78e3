-- ===== src/Server/Pulls/Merging.antt =====
-- What a pull request has passed when it is merged.
use mathlib.Core.Path.{subst}
use dit.Prelude.{
  Result-cases, ℕ, ◌≡◌, ◌≢◌, ◌⊎◌, inl, inr, refl, sym, ap, String, Bool, true, false, not, Option,
  none, some, ◌==◌, opt_eq, arith, eq_iff, Bool-cases,
}
use dit.Prelude.Dict
use dit.Server.{pure, done, World, request}
use dit.Server.Actions.{
  not_refused, not_raised, done_eq, then_done, past_refuse_if, past_found, past_runs,
}
use dit.Server.Tables.{Pull, Rows, find_pull, change_pull, count_approved, ref_is}
use dit.Server.Access.{Token, is_allowed, resolve_actor}
use dit.Server.Protection.{rule_for}
use dit.Server.MergeCommit.{Storage, do_merge, merge_base}
use dit.Server.Pulls.{remove_prefix, lacks_approvals, merged, finish_merge, merge_from, merge_pull}

-- The rows after a merge: the branch and the pull request have changed, and nothing else.
abbrev pub after_merge : Pull → String → Rows → Rows
after_merge p h rows = record rows {
  refs = Dict.put rows.refs p.target_ref h;
  pulls = change_pull p.pull_request_id (merged h) rows.pulls;
}

pub true_of_not : (b : Bool) → not b ≡ false → b ≡ true
true_of_not true h = refl
true_of_not false h = cc

pub test_ne : (s t : String) → (s == t) ≡ false → s ≢ t
test_ne s t h e = ground (arith, eq_iff s t)

pub ref_is-true : (o : Option String) (h : String) → ref_is o h ≡ true → o ≡ some h
ref_is-true none h e = cc
ref_is-true (some g) h e = ground (arith, eq_iff g h)

module _ {S : Type 0} where
  pub finish_merge_done :
      (p : Pull) (target h : String) (w w' : World S) {a : Unit {0}}
      → finish_merge p target h w ≡ (done a, w')
      → (Dict.get w.pending.refs p.target_ref ≡ some target)
        × (w'.committed ≡ after_merge p h w.pending)
  finish_merge_done p target h w w' {a} run =
      elim (Bool-cases (ref_is (Dict.get w.pending.refs p.target_ref) target)) [
        | inl yes_ ↦ (ref_is-true _ target yes_, ap (λ u. u.1.committed) (sym (rw yes_ at run)))
        | inr other ↦ absurd (not_refused (rw other at run))
      ]

module _ (storage : Storage) where
  -- A merge from its merge base on: the rows that it met, and what it made of them.
  pub merge_from_done :
      (others : Rows → Rows) (p : Pull) (author message : String) (now : ℕ) (base : Option String)
      (w w' : World storage.State) (forward : Bool) (h : String)
      → merge_from storage others p author message now base w ≡ (done (forward, h), w')
      → (rows : Rows) × ((rows ≡ w.pending) ⊎ (rows ≡ others w.committed))
        × (Dict.get rows.refs p.target_ref ≡ some p.target_commit)
        × (w'.committed ≡ after_merge p h rows)
  merge_from_done others p author message now base w w' forward h run =
      elim (Bool-cases (opt_eq base (some p.target_commit))) [
        | inl up ↦
            let run₁ = rw up at run in
            let (_, w₁, e₁, e₂) =
              then_done (finish_merge p p.target_commit p.source_commit w)
                (λ u. pure (true, p.source_commit)) run₁ in
            let (matched, moved) = finish_merge_done p p.target_commit p.source_commit w w₁ e₁ in
            let (out, same) = done_eq e₂ in
            let eh : p.source_commit ≡ h = cc in
            (
              w.pending,
              inl refl,
              matched,
              subst (λ u. u.committed ≡ after_merge p h w.pending) same
                  (subst (λ u. w₁.committed ≡ after_merge p u w.pending) eh moved),
            )
        | inr no_ ↦
            elim (Result-cases (
              do_merge storage base p.target_commit p.source_commit author message now w.objects)) [
                | inr (e, failed) ↦ absurd (not_raised (rw (no_, failed) at run))
                | inl (((r, none), s), merged_) ↦ absurd (not_refused (rw (no_, merged_) at run))
                | inl (((r, some c), s), merged_) ↦
                    let (_, w₁, e₁, e₂) =
                      then_done
                        (finish_merge p p.target_commit c (record w {
                          committed = others w.committed;
                          pending = others w.committed;
                          objects = s;
                        }))
                        (λ u. pure (false, c)) (rw (no_, merged_) at run) in
                    let (matched, moved) = finish_merge_done p p.target_commit c _ w₁ e₁ in
                    let (out, same) = done_eq e₂ in
                    let eh : c ≡ h = cc in
                    (
                      others w.committed,
                      inr refl,
                      matched,
                      subst (λ u. u.committed ≡ after_merge p h (others w.committed)) same
                          (subst (λ u. w₁.committed ≡ after_merge p u (others w.committed)) eh
                            moved),
                    )
              ]
      ]

  -- If the request to merge a pull request gives a reply, then the token may push, the pull request
  -- exists and is neither merged nor closed, the rule for its target branch, if there is one, has its
  -- approvals, and the branch was, when it was moved, at the commit that the pull request has as its
  -- target, whatever other requests had committed while this one waited. The branch is then at the
  -- hash of the reply, the pull request is marked as merged with it, and no other row has changed.
  pub merge_pull_done :
      (fnmatch : String → String → Bool) (token : Token) (others₁ others₂ : Rows → Rows) (pr_id : ℕ)
      (message : String) (author : Option String) (now : ℕ) (rows : Rows) (s : storage.State)
      (forward : Bool) (h : String) (w' : World storage.State)
      → request (merge_pull storage fnmatch token others₁ others₂ pr_id message author now) rows s
        ≡ (done (forward, h), w')
      → (p : Pull) × (met : Rows) × (is_allowed 30 token ≡ true)
        × (find_pull rows.pulls pr_id ≡ some p)
        × (p.status ≢ "merged")
        × (p.status ≢ "closed")
        × (lacks_approvals
              (rule_for fnmatch (remove_prefix "heads/" p.target_ref) rows.rules)
              (count_approved p.pull_request_id rows.approvals)
            ≡ false)
        × ((met ≡ others₁ rows) ⊎ (met ≡ others₂ (others₁ rows)))
        × (Dict.get met.refs p.target_ref ≡ some p.target_commit)
        × (w'.committed ≡ after_merge p h met)
  unfolding merge_pull
  merge_pull_done fnmatch token others₁ others₂ pr_id message author now rows s forward h w' run =
      let w : World storage.State = record { committed = rows; pending = rows; objects = s } in
      let (forbidden, run₁) = past_refuse_if (not (is_allowed 30 token)) 403 _ w run in
      let (p, there, run₂) = past_found (find_pull rows.pulls pr_id) 404 _ w run₁ in
      let (not_merged, run₃) = past_refuse_if (p.status == "merged") 400 _ w run₂ in
      let (not_closed, run₄) = past_refuse_if (p.status == "closed") 400 _ w run₃ in
      let (enough, run₅) =
        past_refuse_if
          (lacks_approvals (rule_for fnmatch (remove_prefix "heads/" p.target_ref) rows.rules)
            (count_approved p.pull_request_id rows.approvals))
          403 _ w run₄ in
      let (base, based, run₆) =
        past_runs (merge_base storage p.target_commit p.source_commit) _ w run₅ in
      let (met, which, matched, moved) =
        merge_from_done others₂ p (resolve_actor token author) message now base
          (record w { committed = others₁ rows; pending = others₁ rows }) w' forward h run₆ in
      (
        p,
        met,
        true_of_not (is_allowed 30 token) forbidden,
        there,
        test_ne p.status "merged" not_merged,
        test_ne p.status "closed" not_closed,
        enough,
        which,
        matched,
        moved,
      )
