-- ===== src/Server/Requests.antt =====
-- The server that takes requests one at a time, and the changes that each may make.
pub mod May
pub mod PullChanges
pub mod RefChanges
pub mod Refresh
pub mod Final
use dit.Prelude.{true, false, Bool, ℕ, ◌≡◌, String, Option, none, some, List, [], ◌∷◌}
use dit.Server.{Outcome, World, Action, ◌>>=◌, ◌>>◌, pure, request}
use dit.Server.Tables.{Rule, Rows}
use dit.Server.Access.{Token}
use dit.Server.Protection.{RuleUpdate, create_rule, update_rule, delete_rule}
use dit.Server.Reviews.{submit_review}
use dit.Server.MergeCommit.{Storage}
use dit.Server.Pulls.{create_pull, update_pull, merge_pull}
use dit.Server.Pulls.Resolve.{Resolution, resolve_conflicts}
use dit.Server.Merges.{merge_branches}
use dit.Server.RefRoutes.{cas_update_ref, delete_ref}

-- The requests that write, with their bodies.
pub data Request : Type 0 where
  open_pull : (title source_branch target_branch : String) (author : Option String) → Request
  edit_pull : (pr_id : ℕ) (title status : Option String) → Request
  join_pull : (pr_id : ℕ) (message : String) (author : Option String) (now : ℕ) → Request
  resolve_pull :
      (pr_id : ℕ) (resolutions : List Resolution) (message : String) (author : Option String)
      (now : ℕ)
      → Request
  join_branches :
      (source_branch target_branch message : String) (author : Option String)
      (pull_request_id : Option ℕ) (now : ℕ)
      → Request
  review : (pr_id : ℕ) (status : String) → Request
  add_rule : Rule → Request
  edit_rule : ℕ → RuleUpdate → Request
  remove_rule : ℕ → Request
  set_ref : (ref_type name : String) (old : Option String) (new : String) → Request
  remove_ref : (ref_type name : String) → Request

abbrev pub is_set_ref : Request → Bool
is_set_ref (set_ref ref_type name old new) = true
is_set_ref _ = false

-- Nothing else is committed while a request waits.
abbrev pub alone : Rows → Rows
alone rows = rows

module _ (storage : Storage) (fnmatch : String → String → Bool) (token : Token) where
  unfoldable pub handle : Request → Action storage.State (Unit {0})
  handle (open_pull title source target author) =
      create_pull storage token alone title source target author >> pure tt
  handle (edit_pull pr_id title status) = update_pull token pr_id title status
  handle (join_pull pr_id message author now) =
      merge_pull storage fnmatch token alone alone pr_id message author now >> pure tt
  handle (resolve_pull pr_id resolutions message author now) =
      resolve_conflicts storage token alone alone pr_id resolutions message author now >> pure tt
  handle (join_branches source target message author pull_request_id now) =
      merge_branches storage fnmatch token alone alone source target message author pull_request_id
        now
      >> pure tt
  handle (review pr_id status) = submit_review token pr_id status
  handle (add_rule r) = create_rule token r >> pure tt
  handle (edit_rule id body) = update_rule token id body >> pure tt
  handle (remove_rule id) = delete_rule token id
  handle (set_ref ref_type name old new) =
      cas_update_ref storage fnmatch token ref_type name old new
  handle (remove_ref ref_type name) = delete_ref token ref_type name

  -- The rows after a request, whatever its outcome.
  abbrev pub serve : Request → Rows → storage.State → Rows
  serve req rows s = (request (handle req) rows s).1.committed

-- The requests of many users, one after another.
pub data Served (storage : Storage) (fnmatch : String → String → Bool) (rows : Rows)
    : Rows → Type 0 where
  here : Served storage fnmatch rows rows
  next :
      {mid : Rows} (token : Token) (req : Request) (s : storage.State)
      → Served storage fnmatch rows mid
      → Served storage fnmatch rows (serve storage fnmatch token req mid s)
