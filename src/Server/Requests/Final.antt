-- ===== src/Server/Requests/Final.antt =====
-- What holds of the rows after any number of requests.
use mathlib.Core.Path.{subst}
use dit.Prelude.{◌⊎◌, inl, inr, ℕ, ◌≡◌, ◌≢◌, refl, sym, String, Bool, true, false, some}
use dit.Server.{Outcome, done, refused, raised, spent, World, request, Action, ◌>>◌, pure}
use dit.Server.Exits.{Ends, exit_then}
use dit.Server.Tables.{Pull, Rows, find_pull}
use dit.Server.Access.{Token}
use dit.Server.Protection.{create_rule, update_rule}
use dit.Server.MergeCommit.{Storage}
use dit.Server.Pulls.{create_pull, merge_pull}
use dit.Server.Pulls.Resolve.{resolve_conflicts}
use dit.Server.Merges.{merge_branches}
use dit.Server.Changes.{
  Changes, here, Changes-merged, Changes-IsNumbered, Changes-trans, IsNumbered,
}
use dit.Server.Requests.{
  Request, open_pull, edit_pull, join_pull, resolve_pull, join_branches, review, add_rule,
  edit_rule, remove_rule, set_ref, remove_ref, alone, is_set_ref, handle, serve, Served,
}
use dit.Server.Requests.May.{May, May-Changes}
use dit.Server.Requests.PullChanges.{
  at_rest, Allowed, update_pull-Allowed, merge_pull-Allowed, resolve_conflicts-Allowed,
  create_pull-Allowed,
}
use dit.Server.Requests.RefChanges.{
  create_rule-Allowed, update_rule-Allowed, delete_rule-Allowed, submit_review-Allowed,
  delete_ref-Allowed, merge_branches-Allowed,
}
use dit.Server.Requests.Refresh.{Reach, cas_update_ref-Reach}

module _ (storage : Storage) (fnmatch : String → String → Bool) where
  -- A reply that drops a result changes nothing.
  then_tt :
      {A : Type 0} (rows : Rows) (M : Rows → Type 0) (m : Action storage.State A)
      (s : storage.State)
      → Ends (Allowed rows M) (m (at_rest rows s))
      → Ends (Allowed rows M) ((m >> pure tt) (at_rest rows s))
  then_tt rows M m s h =
      exit_then (Allowed rows M) (m (at_rest rows s)) (λ a. pure tt) h (λ a w q. q)

  -- What a request that is an update of a ref, or is not, leaves.
  abbrev Promise :
      Rows
      → (Rows → Type 0)
      → Bool
      → (World storage.State → Type 0) × (World storage.State → Type 0)
  Promise rows M true = Reach storage rows M
  Promise rows M false = Allowed rows M

  handle-Promise :
      (token : Token) (req : Request) (rows : Rows) (s : storage.State)
      → IsNumbered rows.pulls
      → Ends
          (Promise rows (May token req rows) (is_set_ref req))
          (request (handle storage fnmatch token req) rows s)
  unfolding handle
  handle-Promise token (open_pull title source target author) rows s n =
      then_tt rows (May token (open_pull title source target author) rows)
        (create_pull storage token alone title source target author) s
        (create_pull-Allowed storage rows token title source target author s)
  handle-Promise token (edit_pull pr_id title status) rows s n =
      update_pull-Allowed rows token pr_id title status s
  handle-Promise token (join_pull pr_id message author now) rows s n =
      then_tt rows (May token (join_pull pr_id message author now) rows)
        (merge_pull storage fnmatch token alone alone pr_id message author now) s
        (merge_pull-Allowed storage rows fnmatch token pr_id message author now s)
  handle-Promise token (resolve_pull pr_id resolutions message author now) rows s n =
      then_tt rows (May token (resolve_pull pr_id resolutions message author now) rows)
        (resolve_conflicts storage token alone alone pr_id resolutions message author now) s
        (resolve_conflicts-Allowed storage rows token pr_id resolutions message author now s)
  handle-Promise token (join_branches source target message author id now) rows s n =
      then_tt rows (May token (join_branches source target message author id now) rows)
        (merge_branches storage fnmatch token alone alone source target message author id now) s
        (merge_branches-Allowed storage rows fnmatch token source target message author id now s)
  handle-Promise token (review pr_id status) rows s n =
      submit_review-Allowed rows token pr_id status s
  handle-Promise token (add_rule r) rows s n =
      then_tt rows (May token (add_rule r) rows) (create_rule token r) s
        (create_rule-Allowed rows token r s)
  handle-Promise token (edit_rule id body) rows s n =
      then_tt rows (May token (edit_rule id body) rows) (update_rule token id body) s
        (update_rule-Allowed rows token id body s)
  handle-Promise token (remove_rule id) rows s n = delete_rule-Allowed rows token id s
  handle-Promise token (set_ref ref_type name old new) rows s n =
      cas_update_ref-Reach storage rows fnmatch token ref_type name old new s n
  handle-Promise token (remove_ref ref_type name) rows s n =
      delete_ref-Allowed rows token ref_type name s

  -- What is known of an outcome that is a reply, and of any other.
  abbrev Ended : Rows → (Rows → Type 0) → Outcome (Unit {0}) × World storage.State → Type 0
  Ended rows M o =
      ((o.0 ≡ done tt) × M o.1.committed)
      ⊎ ((o.0 ≢ done tt) × ((o.1.committed ≡ rows) ⊎ M o.1.committed))

  Promise-Ended :
      (rows : Rows) (M : Rows → Type 0) (b : Bool) (o : Outcome (Unit {0}) × World storage.State)
      → Ends (Promise rows M b) o
      → Ended rows M o
  Promise-Ended rows M true (done tt, w) h = inl (refl, h)
  Promise-Ended rows M true (refused c, w) h = inr ((λ q. cc), h)
  Promise-Ended rows M true (raised e, w) h = inr ((λ q. cc), h)
  Promise-Ended rows M true (spent, w) h = inr ((λ q. cc), h)
  Promise-Ended rows M false (done tt, w) h = inl (refl, h)
  Promise-Ended rows M false (refused c, w) h = inr ((λ q. cc), inl h)
  Promise-Ended rows M false (raised e, w) h = inr ((λ q. cc), inl h)
  Promise-Ended rows M false (spent, w) h = inr ((λ q. cc), inl h)

  Allowed-failed :
      (rows : Rows) (M : Rows → Type 0) (o : Outcome (Unit {0}) × World storage.State)
      → Ends (Allowed rows M) o
      → o.0 ≢ done tt
      → o.1.committed ≡ rows
  Allowed-failed rows M (done a, w) h failed = absurd (failed refl)
  Allowed-failed rows M (refused c, w) h failed = h
  Allowed-failed rows M (raised e, w) h failed = h
  Allowed-failed rows M (spent, w) h failed = h

  pub serve-May :
      (token : Token) (req : Request) (rows : Rows) (s : storage.State)
      → IsNumbered rows.pulls
      → (((request (handle storage fnmatch token req) rows s).0 ≡ done tt)
          × May token req rows (serve storage fnmatch token req rows s))
        ⊎ (((request (handle storage fnmatch token req) rows s).0 ≢ done tt)
            × ((serve storage fnmatch token req rows s ≡ rows)
                ⊎ May token req rows (serve storage fnmatch token req rows s)))
  serve-May token req rows s n =
      Promise-Ended rows (May token req rows) (is_set_ref req)
        (request (handle storage fnmatch token req) rows s) (handle-Promise token req rows s n)

  Ended-Changes :
      (token : Token) (req : Request) (rows : Rows) (o : Outcome (Unit {0}) × World storage.State)
      → Ended rows (May token req rows) o
      → Changes rows o.1.committed
  Ended-Changes token req rows o (inl (replied, may)) = May-Changes token req may
  Ended-Changes token req rows o (inr (failed, inl same)) = subst (Changes rows) (sym same) here
  Ended-Changes token req rows o (inr (failed, inr may)) = May-Changes token req may

  serve-Changes :
      (token : Token) (req : Request) (rows : Rows) (s : storage.State)
      → IsNumbered rows.pulls
      → Changes rows (serve storage fnmatch token req rows s)
  serve-Changes token req rows s n =
      Ended-Changes token req rows (request (handle storage fnmatch token req) rows s)
        (serve-May token req rows s n)

  -- If the pull requests have different numbers, and nothing else is committed while a request waits,
  -- then a request other than one to update a ref that ends in any other way than with its reply, be
  -- it a refusal, an exception or a walk out of fuel, leaves the rows of the repository as they were.
  pub serve-failed :
      (token : Token) (req : Request) (rows : Rows) (s : storage.State)
      → IsNumbered rows.pulls
      → is_set_ref req ≡ false
      → (request (handle storage fnmatch token req) rows s).0 ≢ done tt
      → serve storage fnmatch token req rows s ≡ rows
  serve-failed token req rows s n other failed =
      Allowed-failed rows (May token req rows) (request (handle storage fnmatch token req) rows s)
        (subst
          (λ b.
            Ends (Promise rows (May token req rows) b)
              (request (handle storage fnmatch token req) rows s))
          other (handle-Promise token req rows s n))
        failed

  Served-Changes :
      {rows last : Rows}
      → Served storage fnmatch rows last
      → IsNumbered rows.pulls
      → Changes rows last
  Served-Changes Served.here n = here
  Served-Changes (Served.next token req s before) n =
      let done_ = Served-Changes before n in
      Changes-trans done_ (serve-Changes token req _ s (Changes-IsNumbered done_ n))

  -- If pull requests have different numbers at first, then after any number of requests with any
  -- tokens, each ended before the next, they still have, and each pull request that was merged is
  -- still there as it was.
  pub Served-merged :
      {rows last : Rows}
      → Served storage fnmatch rows last
      → IsNumbered rows.pulls
      → IsNumbered last.pulls
        × ((id : ℕ) (p : Pull)
            → find_pull rows.pulls id ≡ some p
            → p.status ≡ "merged"
            → find_pull last.pulls id ≡ some p)
  Served-merged served n = (
    Changes-IsNumbered (Served-Changes served n) n,
    λ id p there m. Changes-merged id p (Served-Changes served n) there m,
  )
