-- ===== src/Server/Reviews.antt =====
-- server/routes/reviews.py. A token has one review of a pull request: a second one changes its status.
pub mod Upsert
use dit.Prelude.{
  ℕ, ◌≡◌, String, Bool, true, false, ◌&&◌, Option, none, some, List, [], ◌∷◌, ◌++◌, nat_eq,
  if◌then◌else◌, is_some,
}
use dit.Server.{Action, ◌>>=◌, ◌>>◌, pure, found, gets, modify, commit}
use dit.Server.Tables.{Pull, Approval, Rows, find_pull}
use dit.Server.Access.{Token}
use dit.Server.Protection.{permit}

-- The approval is the token's, of this pull request.
abbrev pub is_review : ℕ → ℕ → Approval → Bool
is_review pr_id token_id a = nat_eq a.pull_request_id pr_id && nat_eq a.token_id token_id

-- The upsert.
unfoldable pub set_review : ℕ → ℕ → String → List Approval → List Approval
set_review pr_id token_id status [] =
    record { pull_request_id = pr_id; token_id = token_id; status = status } ∷ []
set_review pr_id token_id status (a ∷ as') =
    let rest = set_review pr_id token_id status as' in
    if is_review pr_id token_id a then record a { status = status } ∷ as' else a ∷ rest

-- The status that a token's review has.
unfoldable pub review_of : ℕ → ℕ → List Approval → Option String
review_of pr_id token_id [] = none
review_of pr_id token_id (a ∷ as') =
    if is_review pr_id token_id a then some a.status else review_of pr_id token_id as'

unfoldable pub reviews_of : ℕ → List Approval → List Approval
reviews_of pr_id [] = []
reviews_of pr_id (a ∷ as') =
    let rest = reviews_of pr_id as' in if nat_eq a.pull_request_id pr_id then a ∷ rest else rest

abbrev pub with_approvals : (List Approval → List Approval) → Rows → Rows
with_approvals f rows = record rows { approvals = f rows.approvals }

module _ {S : Type 0} (token : Token) where
  abbrev pub get_pr_meta : ℕ → Action S Pull
  get_pr_meta pr_id = do row ← gets (λ rows. find_pull rows.pulls pr_id); found row 404

  unfoldable pub submit_review : ℕ → String → Action S (Unit {0})
  submit_review pr_id status = do
    permit 20 token
    p ← get_pr_meta pr_id
    modify (with_approvals (set_review pr_id token.id status))
    commit

  unfoldable pub list_reviews : ℕ → Action S (List Approval)
  list_reviews pr_id = do
    permit 10 token
    p ← get_pr_meta pr_id
    gets (λ rows. reviews_of pr_id rows.approvals)
