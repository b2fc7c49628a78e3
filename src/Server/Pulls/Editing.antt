-- ===== src/Server/Pulls/Editing.antt =====
-- What a request to change a pull request may set its status to.
use dit.Prelude.{
  ℕ, ◌≡◌, ◌≢◌, refl, ◌∙◌, String, Bool, true, false, Option, some, ◌==◌, arith, eq_iff,
}
use dit.Server.{done, refused, request}
use dit.Server.Tables.{Pull, Rows, find_pull, change_pull}
use dit.Server.Access.{Token, is_allowed}
use dit.Server.MergeCommit.{Storage}
use dit.Server.Changes.{find_pull-change_pull}
use dit.Server.Pulls.{updated_pull, with_pulls, update_pull, merge_pull}

-- A token that may push marks a pull request that is not merged as merged: the request succeeds,
-- the branches stay where they are, and the pull request has no other commit of a merge than
-- before. After that, each request to merge or to change the pull request, with any token that may
-- push, is refused with 400, on any rows that have it so.
pub update_pull-merged :
    (storage : Storage) (fnmatch : String → String → Bool) (token : Token) (pr_id : ℕ)
    (title : Option String) (rows : Rows) (s : storage.State) (p : Pull)
    → is_allowed 30 token ≡ true
    → find_pull rows.pulls pr_id ≡ some p
    → p.status ≢ "merged"
    → (rows' : Rows) × (p' : Pull) × (request (update_pull token pr_id title (some "merged")) rows s
        ≡ (done tt, record { committed = rows'; pending = rows'; objects = s }))
      × (rows'.refs ≡ rows.refs)
      × (find_pull rows'.pulls pr_id ≡ some p')
      × (p'.status ≡ "merged")
      × (p'.merge_commit ≡ p.merge_commit)
      × ((later : Rows) (token' : Token) (s' : storage.State) (others₁ others₂ : Rows → Rows)
            (message : String) (author title' status' : Option String) (now : ℕ)
          → find_pull later.pulls pr_id ≡ some p'
          → is_allowed 30 token' ≡ true
          → ((request
                (merge_pull storage fnmatch token' others₁ others₂ pr_id message author now)
                later
                s').0
              ≡ refused 400)
            × ((request (update_pull token' pr_id title' status') later s').0 ≡ refused 400))
unfolding update_pull merge_pull
update_pull-merged storage fnmatch token pr_id title rows s p may there open_ =
    let other : (p.status == "merged") ≡ false = ground (arith, eq_iff p.status "merged", open_) in
    (
      with_pulls (change_pull pr_id (updated_pull title (some "merged"))) rows,
      updated_pull title (some "merged") p,
      rw (may, there, other) refl,
      refl,
      find_pull-change_pull pr_id pr_id (updated_pull title (some "merged")) rows.pulls (λ q. refl)
          ∙ ground (arith, there),
      refl,
      refl,
      λ later token' s' others₁ others₂ message author title' status' now found_ may'.
          (rw (may', found_) refl, rw (may', found_) refl),
    )
