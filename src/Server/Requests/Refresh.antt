-- ===== src/Server/Requests/Refresh.antt =====
-- The changes of `cas_update_ref` and of the refresh of pull requests after it.
use dit.Prelude.{
  ap, ◌⊎◌, true, false, test_self, ℕ, ◌≡◌, ◌||◌, ◌&&◌, refl, eq_of_test, String, Bool, not, Option,
  none, some, List, [], ◌∷◌, ◌==◌, is_some, arith, Bool-cases, Option-cases, inl, inr, All,
}
use dit.Prelude.Dict
use dit.Server.{Outcome, done, refused, raised, spent, World, Action, ◌>>=◌, commit}
use dit.Server.Exits.{
  Ends, Both, exit_refuse_if, exit_reads, exit_runs, exit_then, exit_after, exit_check,
  exit_mergeability,
}
use dit.Server.Tables.{ref_is, Pull, Rows, find_pull, change_pull}
use dit.Server.Access.{Token, is_allowed}
use dit.Server.MergeCommit.{Storage, merge_base}
use dit.Server.DiffStats.{compute_diff_stats}
use dit.Server.RefRoutes.{
  full_name, old_hash, open_pulls_of, refreshed, refresh_pull, refresh_pulls,
  update_prs_for_ref_change, check_matched, check_branch, cas_checked, cas_update_ref,
}
use dit.Server.Actions.{not_refused, refuse_if_done}
use dit.Server.Pulls.Merging.{true_of_not}
use dit.Server.Changes.{IsNumbered, Fresh, KeepsId, find_pull-change_pull}
use dit.Server.Requests.{set_ref}
use dit.Server.Requests.May.{May, AllRefreshed, no_more, one_more, reread}
use dit.Server.RefRoutes.Protected.{check_branch-same, check_matched-same}
use dit.Server.Requests.PullChanges.{at_rest}

-- The pull requests are open ones of the table.
abbrev IsOpenIn : List Pull → List Pull → Type 0
IsOpenIn ps qs =
    All (λ (q : Pull). (find_pull ps q.pull_request_id ≡ some q) × (q.status ≡ "open")) qs

Fresh-open_pulls_of :
    (id : ℕ) (ref : String) (ps : List Pull) → Fresh id ps → Fresh id (open_pulls_of ref ps)
unfolding open_pulls_of
Fresh-open_pulls_of id ref [] n = tt
Fresh-open_pulls_of id ref (p ∷ ps) (n, ns) =
    elim (Bool-cases (p.status == "open" && (p.source_ref == ref || p.target_ref == ref))) [
      | inl yes_ ↦ rw yes_ (n, Fresh-open_pulls_of id ref ps ns)
      | inr other ↦ rw other (Fresh-open_pulls_of id ref ps ns)
    ]

open_pulls_of-IsNumbered :
    (ref : String) (ps : List Pull) → IsNumbered ps → IsNumbered (open_pulls_of ref ps)
unfolding open_pulls_of
open_pulls_of-IsNumbered ref [] n = tt
open_pulls_of-IsNumbered ref (p ∷ ps) (n, ns) =
    elim (Bool-cases (p.status == "open" && (p.source_ref == ref || p.target_ref == ref))) [
      | inl yes_ ↦
          rw yes_
            (Fresh-open_pulls_of p.pull_request_id ref ps n, open_pulls_of-IsNumbered ref ps ns)
      | inr other ↦ rw other (open_pulls_of-IsNumbered ref ps ns)
    ]

-- They stay so under a new first row, and where another one changes.
cons-IsOpenIn :
    (p : Pull) (ps qs : List Pull)
    → Fresh p.pull_request_id qs
    → IsOpenIn ps qs
    → IsOpenIn (p ∷ ps) qs
unfolding find_pull
cons-IsOpenIn p ps [] n o = tt
cons-IsOpenIn p ps (q ∷ qs) (n, ns) ((there, o), os) =
    ((ground arith, o), cons-IsOpenIn p ps qs ns os)

change_pull-IsOpenIn :
    (id : ℕ) (f : Pull → Pull) (ps qs : List Pull)
    → KeepsId f
    → Fresh id qs
    → IsOpenIn ps qs
    → IsOpenIn (change_pull id f ps) qs
change_pull-IsOpenIn id f ps [] k n o = tt
change_pull-IsOpenIn id f ps (q ∷ qs) k (n, ns) ((there, o), os) = (
  (ground (arith, find_pull-change_pull id q.pull_request_id f ps k), o),
  change_pull-IsOpenIn id f ps qs k ns os,
)

open_pulls_of-IsOpenIn :
    (ref : String) (ps : List Pull) → IsNumbered ps → IsOpenIn ps (open_pulls_of ref ps)
unfolding open_pulls_of find_pull
open_pulls_of-IsOpenIn ref [] n = tt
open_pulls_of-IsOpenIn ref (p ∷ ps) (n, ns) =
    let rest =
      cons-IsOpenIn p ps (open_pulls_of ref ps) (Fresh-open_pulls_of p.pull_request_id ref ps n)
        (open_pulls_of-IsOpenIn ref ps ns) in
    elim (Bool-cases (p.status == "open" && (p.source_ref == ref || p.target_ref == ref))) [
      | inl yes_ ↦ rw yes_ ((ground arith, eq_of_test p.status "open" (ground arith)), rest)
      | inr other ↦ rw other rest
    ]

module _ (storage : Storage) (rows : Rows) where
  -- What the loop keeps: what is committed and what is pending differ by refreshed pull requests.
  abbrev Reached : World storage.State → Type 0
  Reached w = AllRefreshed rows w.committed × AllRefreshed rows w.pending

  refresh_pull-Reached :
      (q : Pull) (qs : List Pull) (source target : String) (w : World storage.State)
      → Reached w
      → find_pull w.pending.pulls q.pull_request_id ≡ some q
      → q.status ≡ "open"
      → Dict.get w.pending.refs q.source_ref ≡ some source
      → Dict.get w.pending.refs q.target_ref ≡ some target
      → Fresh q.pull_request_id qs
      → IsOpenIn w.pending.pulls qs
      → Ends
          (Both (λ u. Reached u × IsOpenIn u.pending.pulls qs))
          (refresh_pull storage q (some source) (some target) w)
  refresh_pull-Reached q qs source target w (r, r') there o found_s found_t n os =
      let P : World storage.State → Type 0 = λ u. Reached u × IsOpenIn u.pending.pulls qs in
      let Q : (World storage.State → Type 0) × (World storage.State → Type 0) = Both P in
      exit_runs Q (merge_base storage target source) _ w ((r, r'), os)
        λ base.
          exit_reads Q (λ s. compute_diff_stats storage s source target) _ w ((r, r'), os)
            λ stats.
              exit_mergeability storage Q target source _ w ((r, r'), os)
                λ base' m s. (
                  (
                    r,
                    one_more r' (reread q source target base stats m there o found_s found_t refl),
                  ),
                  change_pull-IsOpenIn q.pull_request_id (refreshed source target base stats m)
                      w.pending.pulls qs (λ p. refl) n os,
                )

  refresh_pulls-Reached :
      (qs : List Pull) (w : World storage.State)
      → Reached w
      → IsNumbered qs
      → IsOpenIn w.pending.pulls qs
      → Ends (Both Reached) (refresh_pulls storage qs w)
  unfolding refresh_pulls
  refresh_pulls-Reached [] w r n o = r
  refresh_pulls-Reached (q ∷ qs) w r (n, ns) ((there, o), os) =
      elim (Option-cases (Dict.get w.pending.refs q.source_ref)) [
        | inl absent ↦ rw absent (refresh_pulls-Reached qs w r ns os)
        | inr (source, found_s) ↦ elim (Option-cases (Dict.get w.pending.refs q.target_ref)) [
          | inl absent ↦ rw (found_s, absent) (refresh_pulls-Reached qs w r ns os)
          | inr (target, found_t) ↦
              rw (found_s, found_t)
                (exit_after (Both Reached) (Both (λ u. Reached u × IsOpenIn u.pending.pulls qs))
                  (refresh_pull storage q (some source) (some target) w)
                  (λ u. refresh_pulls storage qs)
                  (refresh_pull-Reached q qs source target w r there o found_s found_t n os)
                  (λ u h. h.0) (λ a u h. refresh_pulls-Reached qs u h.0 ns h.1))
        ]
      ]

  update_prs_for_ref_change-Reached :
      (ref : String) (s : storage.State)
      → IsNumbered rows.pulls
      → Ends (Both Reached) (update_prs_for_ref_change storage ref (at_rest rows s))
  unfolding update_prs_for_ref_change
  update_prs_for_ref_change-Reached ref s n =
      exit_then (Both Reached)
        (refresh_pulls storage (open_pulls_of ref rows.pulls) (at_rest rows s)) (λ u. commit)
        (refresh_pulls-Reached (open_pulls_of ref rows.pulls) (at_rest rows s) (no_more, no_more)
          (open_pulls_of-IsNumbered ref rows.pulls n) (open_pulls_of-IsOpenIn ref rows.pulls n))
        (λ a w r. (r.1, r.1))

is_some-false : (o : Option String) → is_some o ≡ false → o ≡ none
is_some-false none h = refl
is_some-false (some a) h = cc

check_matched_done :
    {S : Type 0} (o : Option String) (old : String) (w w' : World S) (a : Unit {0})
    → check_matched o old w ≡ (done a, w')
    → o ≡ some old
check_matched_done none old w w' a run = absurd (not_refused run)
check_matched_done (some h) old w w' a run =
    let (same, _) = refuse_if_done (not (h == old)) 409 w run in
    ap some (eq_of_test h old (true_of_not (h == old) same))

Ends-weaken :
    {S A : Type 0} (P : World S → Type 0) (Q : (World S → Type 0) × (World S → Type 0))
    (o : Outcome A × World S)
    → Ends (Both P) o
    → ((w : World S) → P w → Q.0 w)
    → ((w : World S) → P w → Q.1 w)
    → Ends Q o
Ends-weaken P Q (done a, w) h f g = f w h
Ends-weaken P Q (refused c, w) h f g = g w h
Ends-weaken P Q (raised e, w) h f g = g w h
Ends-weaken P Q (spent, w) h f g = g w h

module _ (storage : Storage) (rows : Rows) where
  -- A reply leaves what an update of a ref may do, any other outcome that or nothing.
  abbrev pub Reach :
      (Rows → Type 0) → (World storage.State → Type 0) × (World storage.State → Type 0)
  Reach M = ((λ w. M w.committed), (λ w. (w.committed ≡ rows) ⊎ M w.committed))

  cas_checked-Reach :
      (M : Rows → Type 0) (fnmatch : String → String → Bool) (ref_type name : String)
      (old : Option String) (new : String) {B : Type 0} (f : Unit {0} → Action storage.State B)
      (s : storage.State)
      → (Dict.get rows.refs (full_name ref_type name) ≡ old
          → Ends (Reach M) (
              f tt (
                at_rest
                  (record rows { refs = Dict.put rows.refs (full_name ref_type name) new })
                  s)))
      → Ends (Reach M) ((cas_checked storage fnmatch ref_type name old new >>= f) (at_rest rows s))
  cas_checked-Reach M fnmatch ref_type name none new f s k =
      elim (Bool-cases (is_some (Dict.get rows.refs (full_name ref_type name)))) [
        | inl there ↦ rw there (inl refl)
        | inr free ↦ rw free (k (is_some-false _ free))
      ]
  cas_checked-Reach M fnmatch ref_type name (some old) new f s k =
      exit_check (Reach M) (check_branch storage fnmatch ref_type name old new (at_rest rows s)) _ f
        (at_rest rows s) (check_branch-same storage fnmatch ref_type name old new (at_rest rows s))
        (inl refl)
        λ a w' allowed.
          exit_check (Reach M)
            (check_matched (Dict.get rows.refs (full_name ref_type name)) old (at_rest rows s)) _ f
            (at_rest rows s) (check_matched-same _ old (at_rest rows s)) (inl refl)
            λ a' w₁ matched.
              let there = check_matched_done _ old (at_rest rows s) w₁ a' matched in
              let same : ref_is (Dict.get rows.refs (full_name ref_type name)) old ≡ true =
                rw there (test_self old) in
              rw same (k there)

  pub cas_update_ref-Reach :
      (fnmatch : String → String → Bool) (token : Token) (ref_type name : String)
      (old : Option String) (new : String) (s : storage.State)
      → IsNumbered rows.pulls
      → Ends
          (Reach (May token (set_ref ref_type name old new) rows))
          (cas_update_ref storage fnmatch token ref_type name old new (at_rest rows s))
  unfolding cas_update_ref
  cas_update_ref-Reach fnmatch token ref_type name old new s n =
      let M = May token (set_ref ref_type name old new) rows in
      exit_refuse_if (Reach M) (not (is_allowed 30 token)) 403 _ (at_rest rows s) (inl refl)
        λ allowed. cas_checked-Reach M fnmatch ref_type name (old_hash old) new _ s λ matched.
          let moved = record rows { refs = Dict.put rows.refs (full_name ref_type name) new } in
          Ends-weaken (Reached storage moved) (Reach M) _
            (update_prs_for_ref_change-Reached storage moved (full_name ref_type name) s n)
            (λ w r. (matched, r.0)) (λ w r. inr (matched, r.0))
