-- ===== src/Tests/ServerTests.antt =====
-- Requests to a server whose repository has three commits, a ← b and a ← c, and two branches.
use dit.Prelude.{
  ℕ, ◌+◌, ◌≡◌, ◌≢◌, ◌⊎◌, ◌↔◌, refl, String, Bool, true, false, Option, none, some, List, [], ◌∷◌,
  ◌==◌, has, ok, arith, eq_iff, if◌then◌else◌,
}
use dit.Prelude.Dict
use dit.Objects.{Commit}
use dit.Commits.{Loader}
use dit.Commits.MergeBase.{
  find_merge_base, search_base, round, half_round, take_current, add_parents,
}
use dit.Server.{done, refused, World, request}
use dit.Server.Tables.{Rule, Pull, Rows, find_pull, change_pull, count_approved}
use dit.Server.Access.{
  Token, role_level, token_level, required_level, is_allowed, lstrip, rstrip, strip, is_lower_word,
  label_or_unknown, resolve_actor,
}
use dit.Server.Access.Login.{
  Entry, IsEntryOf, synthetic_admin_token, verify_token, verify_token_lem,
}
use dit.Server.Access.Levels.{names_of, grants, grants-names_of}
use dit.Server.Protection.{rule_for}
use dit.Server.MergeCommit.{Storage}
use dit.Server.Pulls.{lacks_approvals, after_prefix, remove_prefix, update_pull, merge_pull}
use dit.Server.Pulls.Merging.{after_merge, merge_pull_done}
use dit.Server.Pulls.Editing.{update_pull-merged}
use dit.Server.Merges.{check_merge_approvals}
use dit.Server.Merges.Approvals.{Passes, check_merge_approvals_lem}
use dit.Server.RefRoutes.{full_name, cas_update_ref}
use dit.Server.RefRoutes.Protected.{Lets, cas_update_ref-protected}
use dit.Server.Changes.{IsNumbered}
use dit.Server.Requests.{handle, Request, edit_pull, serve, Served}
use dit.Server.Requests.Final.{serve-failed, Served-merged}
use dit.Server.Requests.May.{May}

abbrev commit_with : List String → Commit
commit_with ps = record {
  tree_hash = "t";
  parent_hashes = ps;
  author = "me";
  message = "m";
  timestamp = 7;
}

abbrev graph : Loader
graph h =
    if h == "a"
    then ok (some (commit_with []))
    else if h == "b"
    then ok (some (commit_with ("a" ∷ [])))
    else if h == "c"
    then ok (some (commit_with ("a" ∷ [])))
    else ok none

-- The state is the number of writes.
abbrev storage : Storage
storage = record {
  State = ℕ;
  read_commit = λ s. graph;
  read_tree = λ s h. ok (some (record { entries = [] }));
  read_manifest = λ s h. ok (record { entries = [] });
  write_manifest = λ s m. ok ("manifest", s + 1);
  write_tree = λ s t. ok ("tree", s + 1);
  write_commit = λ s c. ok ("commit", s + 1);
  fuel = 9;
  depth = 9;
}

abbrev fnmatch : String → String → Bool
fnmatch name pattern' = name == pattern'

abbrev pub pusher : Token
pusher = record { id = 4; label = "ci"; repo_scope = none; permissions = "push"; role = "reader" }

abbrev main_rule : Rule
main_rule = record {
  id = 1;
  branch_pattern = "main";
  require_pr = false;
  required_approvals = 1;
  block_force_push = true;
  auto_delete_branch = false;
}

abbrev pull : ℕ → String → Pull
pull n status = record {
  pull_request_id = n;
  title = "rows";
  author = "me";
  status = status;
  source_ref = "heads/dev";
  target_ref = "heads/main";
  base_commit = "a";
  source_commit = "b";
  target_commit = "a";
  merge_commit = none;
  is_mergeable = true;
  conflict_files = [];
  stats_added = 0;
  stats_removed = 0;
  stats_refreshed = 0;
}

abbrev rows : Rows
rows = record {
  refs = ("heads/main", "a") ∷ ("heads/dev", "b") ∷ [];
  rules = main_rule ∷ [];
  pulls = pull 1 "merged" ∷ pull 2 "open" ∷ [];
  approvals = record { pull_request_id = 2; token_id = 9; status = "approved" } ∷ [];
}

-- The default permissions of a token, with the default role, let it push.
push_level : required_level "push" ≡ ok 30
unfolding required_level Dict.get
push_level = refl

pusher_level : token_level pusher ≡ 30
unfolding token_level role_level Dict.get
pusher_level = refl

pub pusher_may : is_allowed 30 pusher ≡ true
unfolding is_allowed token_level role_level Dict.get
pusher_may = refl

grants-names_of_example :
    (grants "read" pusher ≡ ok true)
    × (grants "reviewer" pusher
        ≡ ok (
            names_of pusher
              ("reviewer" ∷ "committer" ∷ "maintainer" ∷ "admin" ∷ "owner" ∷ [])
              ("push" ∷ "admin" ∷ [])))
    × (grants "push" pusher
        ≡ ok (
            names_of pusher
              ("committer" ∷ "maintainer" ∷ "admin" ∷ "owner" ∷ [])
              ("push" ∷ "admin" ∷ [])))
    × (grants "admin" pusher ≡ ok (names_of pusher ("admin" ∷ "owner" ∷ []) ("admin" ∷ [])))
grants-names_of_example = grants-names_of pusher

actor : resolve_actor pusher (some " UnKnown ") ≡ "ci"
unfolding resolve_actor lstrip rstrip strip is_lower_word label_or_unknown
actor = refl

-- Others move another branch while the request waits.
abbrev others : Rows → Rows
others r = record r { refs = Dict.put r.refs "heads/dev" "c" }

abbrev joined_world : World ℕ
joined_world = record {
  committed = after_merge (pull 2 "open") "b" (others rows);
  pending = after_merge (pull 2 "open") "b" (others rows);
  objects = 0;
}

merge_run :
    request (merge_pull storage fnmatch pusher others others 2 "m" none 5) rows 0
    ≡ (done (true, "b"), joined_world)
unfolding merge_pull is_allowed token_level role_level Dict.get Dict.put find_pull change_pull
    rule_for after_prefix remove_prefix count_approved find_merge_base search_base round half_round
    take_current has add_parents lstrip rstrip strip is_lower_word label_or_unknown resolve_actor
merge_run = refl

merge_pull_done_example :
    (p : Pull) × (met : Rows) × (is_allowed 30 pusher ≡ true)
    × (find_pull rows.pulls 2 ≡ some p)
    × (p.status ≢ "merged")
    × (p.status ≢ "closed")
    × (lacks_approvals
          (rule_for fnmatch (remove_prefix "heads/" p.target_ref) rows.rules)
          (count_approved p.pull_request_id rows.approvals)
        ≡ false)
    × ((met ≡ others rows) ⊎ (met ≡ others (others rows)))
    × (Dict.get met.refs p.target_ref ≡ some p.target_commit)
    × (joined_world.committed ≡ after_merge p "b" met)
merge_pull_done_example =
    merge_pull_done storage fnmatch pusher others others 2 "m" none 5 rows 0 true "b" joined_world
      merge_run

rows-IsNumbered : IsNumbered rows.pulls
rows-IsNumbered = ((refl, tt), (tt, tt))

abbrev edit : Request
edit = edit_pull 2 (some "new") (some "closed")

abbrev served : Served storage fnmatch rows (serve storage fnmatch pusher edit rows 0)
served = Served.next pusher edit 0 Served.here

Served-merged_example :
    IsNumbered (serve storage fnmatch pusher edit rows 0).pulls
    × ((id : ℕ) (p : Pull)
        → find_pull rows.pulls id ≡ some p
        → p.status ≡ "merged"
        → find_pull (serve storage fnmatch pusher edit rows 0).pulls id ≡ some p)
Served-merged_example = Served-merged storage fnmatch served rows-IsNumbered

ruled : rule_for fnmatch "main" rows.rules ≡ some main_rule
unfolding rule_for
ruled = refl

main_there : Dict.get rows.refs (full_name "heads" "main") ≡ some "a"
unfolding Dict.get
main_there = refl

cas_update_ref-protected_example :
    (Dict.get
        (request
          (cas_update_ref storage fnmatch pusher "heads" "main" (some "a") "c")
          rows
          0).1.committed.refs
        (full_name "heads" "main")
      ≡ some "a")
    ⊎ Lets storage main_rule "a" "c" 0
cas_update_ref-protected_example =
    cas_update_ref-protected storage fnmatch pusher "main" "a" "c" (some "a") main_rule rows 0 ruled
      main_there

abbrev world : World ℕ
world = record { committed = rows; pending = rows; objects = 0 }

check_merge_approvals_lem_example :
    check_merge_approvals fnmatch "main" (some 2) world ≡ (done tt, world)
    ↔ Passes (rule_for fnmatch "main" rows.rules) (some 2) rows
check_merge_approvals_lem_example = check_merge_approvals_lem fnmatch "main" (some 2) world

there : find_pull rows.pulls 2 ≡ some (pull 2 "open")
unfolding find_pull
there = refl

abbrev open_word : String
open_word = "open"

is_open : open_word ≢ "merged"
is_open e = ground (arith, eq_iff open_word "merged")

update_pull-merged_example :
    (rows' : Rows) × (p' : Pull) × (request {S = ℕ}
        (update_pull pusher 2 none (some "merged"))
        rows
        0
      ≡ (done tt, record { committed = rows'; pending = rows'; objects = 0 }))
    × (rows'.refs ≡ rows.refs)
    × (find_pull rows'.pulls 2 ≡ some p')
    × (p'.status ≡ "merged")
    × (p'.merge_commit ≡ (pull 2 "open").merge_commit)
    × ((later : Rows) (token' : Token) (s' : ℕ) (others₁ others₂ : Rows → Rows) (message : String)
          (author title' status' : Option String) (now : ℕ)
        → find_pull later.pulls 2 ≡ some p'
        → is_allowed 30 token' ≡ true
        → ((request
              (merge_pull storage fnmatch token' others₁ others₂ 2 message author now)
              later
              s').0
            ≡ refused 400)
          × ((request (update_pull token' 2 title' status') later s').0 ≡ refused 400))
update_pull-merged_example =
    update_pull-merged storage fnmatch pusher 2 none rows 0 (pull 2 "open") pusher_may there is_open

abbrev tokens : String → Option Entry
tokens h = if h == "abc" then some (record { token = pusher; expires_at = some 9 }) else none

-- The server has no service token, and the request sends one.
abbrev no_service : String
no_service = ""

abbrev sent : Option String
sent = some "x"

login_run : verify_token (λ s. s) tokens no_service 8 (some "Bearer abc ") sent ≡ done pusher
unfolding verify_token lstrip rstrip strip after_prefix remove_prefix
login_run = refl

verify_token_lem_example :
    ((sent ≡ some no_service) × (no_service ≢ "") × (synthetic_admin_token ≡ pusher))
    ⊎ IsEntryOf (λ s. s) tokens 8 "Bearer abc " pusher
verify_token_lem_example =
    verify_token_lem (λ s. s) tokens no_service 8 (some "Bearer abc ") sent pusher login_run

-- The pull request is merged already.
abbrev late_edit : Request
late_edit = edit_pull 1 (some "new") none

late_run : (request (handle storage fnmatch pusher late_edit) rows 0).0 ≡ refused 400
unfolding handle update_pull is_allowed token_level role_level Dict.get find_pull
late_run = refl

late_refused : (request (handle storage fnmatch pusher late_edit) rows 0).0 ≢ done tt
late_refused h = cc (h, late_run)

serve-failed_example : serve storage fnmatch pusher late_edit rows 0 ≡ rows
serve-failed_example =
    serve-failed storage fnmatch pusher late_edit rows 0 rows-IsNumbered refl late_refused
