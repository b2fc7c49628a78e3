-- ===== src/Server/Tables.antt =====
-- The rows that server/models.py keeps of one repository, and the queries of the handlers. Every query
-- has the condition on `repo_id`, so the rows of other repositories do not matter. Row ids, which
-- only serve as keys of the database, and times are left out where no handler reads them.
use dit.Prelude.{
  ℕ, suc, String, Bool, false, ◌&&◌, Option, none, some, List, [], ◌∷◌, ◌==◌, nat_eq, leb,
  if◌then◌else◌,
}
use dit.Prelude.Dict
use dit.Prelude.Dict.{Dict}

-- `BranchProtection`. The number of approvals is a natural number here; the column and the requests
-- would also take a negative one, which is left out.
pub record Rule : Type 0 where
  pub id : ℕ
  pub branch_pattern : String
  pub require_pr : Bool
  pub required_approvals : ℕ
  pub block_force_push : Bool
  pub auto_delete_branch : Bool

-- `PullRequestMeta`
pub record Pull : Type 0 where
  pub pull_request_id : ℕ
  pub title : String
  pub author : String
  pub status : String
  pub source_ref : String
  pub target_ref : String
  pub base_commit : String
  pub source_commit : String
  pub target_commit : String
  pub merge_commit : Option String
  pub is_mergeable : Bool
  pub conflict_files : List (String × String)
  pub stats_added : ℕ
  pub stats_removed : ℕ
  pub stats_refreshed : ℕ

-- `PrApproval`
pub record Approval : Type 0 where
  pub pull_request_id : ℕ
  pub token_id : ℕ
  pub status : String

-- `Ref` by name, and the other tables in the order of insertion.
pub record Rows : Type 0 where
  pub refs : Dict String
  pub rules : List Rule
  pub pulls : List Pull
  pub approvals : List Approval

unfoldable pub find_pull : List Pull → ℕ → Option Pull
find_pull [] id = none
find_pull (p ∷ ps) id = if nat_eq p.pull_request_id id then some p else find_pull ps id

-- What the flush of a changed pull request does to its row.
unfoldable pub change_pull : ℕ → (Pull → Pull) → List Pull → List Pull
change_pull id f [] = []
change_pull id f (p ∷ ps) =
    let rest = change_pull id f ps in if nat_eq p.pull_request_id id then f p ∷ rest else p ∷ rest

-- `coalesce(max(pull_request_id), 0)`
unfoldable pub max_pull_id : List Pull → ℕ
max_pull_id [] = 0
max_pull_id (p ∷ ps) =
    let rest = max_pull_id ps in if leb rest p.pull_request_id then p.pull_request_id else rest

-- `count()` of the approvals of a pull request with the status "approved"
unfoldable pub count_approved : ℕ → List Approval → ℕ
count_approved id [] = 0
count_approved id (a ∷ as') =
    let rest = count_approved id as' in
    if nat_eq a.pull_request_id id && a.status == "approved" then suc rest else rest

abbrev pub ref_is : Option String → String → Bool
ref_is none old = false
ref_is (some h) old = h == old

-- `UPDATE refs SET target_hash = new WHERE name = … AND target_hash = old`: whether a row matched.
abbrev pub update_ref : Rows → String → String → String → Rows
update_ref rows name old new = record rows {
  refs = if ref_is (Dict.get rows.refs name) old then Dict.put rows.refs name new else rows.refs;
}
