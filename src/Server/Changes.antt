-- ===== src/Server/Changes.antt =====
-- What all changes of requests to the rows of a repository keep: merged pull requests, and the numbers.
use mathlib.Core.Path.{subst}
use dit.Prelude.{
  ℕ, ◌+◌, ◌<◌, ◌≡◌, ◌≢◌, refl, sym, ap, ◌∙◌, String, false, Option, none, some, List, [], ◌∷◌, ◌++◌,
  ◌==◌, nat_eq, if◌then◌else◌, arith, eq_iff, Bool-cases, inl, inr, All, All-append,
}
use dit.Prelude.Dict
use dit.Server.Tables.{Pull, Rows, find_pull, change_pull, max_pull_id}
use dit.Server.Pulls.{with_pulls, merged, updated_pull}
use dit.Server.Pulls.Merging.{after_merge}
use dit.Server.DiffStats.{Stats}
use dit.Merge.{MergeResult}
use dit.Server.RefRoutes.{refreshed}

-- One change. Refs, rules and reviews may change at will here; of the pull requests only these do.
pub data Change (rows rows' : Rows) : Type 0 where
  -- refs, rules or reviews, and no pull request
  aside : rows'.pulls ≡ rows.pulls → Change rows rows'
  opened :
      (p : Pull)
      → p.status ≡ "open"
      → p.merge_commit ≡ none
      → p.pull_request_id ≡ max_pull_id rows.pulls + 1
      → rows' ≡ with_pulls (λ pulls. pulls ++ p ∷ []) rows
      → Change rows rows'
  edited :
      (p : Pull) (title status : Option String)
      → find_pull rows.pulls p.pull_request_id ≡ some p
      → p.status ≢ "merged"
      → rows' ≡ with_pulls (change_pull p.pull_request_id (updated_pull title status)) rows
      → Change rows rows'
  -- the heads of an open pull request are read again
  synced :
      (p : Pull) (source target : String) (base : Option String) (stats : Stats) (r : MergeResult)
      → find_pull rows.pulls p.pull_request_id ≡ some p
      → p.status ≡ "open"
      → rows'
        ≡ with_pulls (change_pull p.pull_request_id (refreshed source target base stats r)) rows
      → Change rows rows'
  -- a pull request is merged: its branch moves from the commit that was merged
  joined :
      (p : Pull) (from h : String)
      → find_pull rows.pulls p.pull_request_id ≡ some p
      → p.status ≢ "merged"
      → Dict.get rows.refs p.target_ref ≡ some from
      → rows' ≡ after_merge p h rows
      → Change rows rows'

-- Any number of changes.
pub data Changes (rows : Rows) : Rows → Type 0 where
  here : Changes rows rows
  next : {mid last : Rows} → Changes rows mid → Change mid last → Changes rows last

-- Each pull request has another number.
abbrev pub Fresh : ℕ → List Pull → Type 0
Fresh id ps = All (λ (p : Pull). nat_eq p.pull_request_id id ≡ false) ps

abbrev pub IsNumbered : List Pull → Type 0
IsNumbered [] = Unit
IsNumbered (p ∷ ps) = Fresh p.pull_request_id ps × IsNumbered ps

-- `f` leaves the number of a pull request.
abbrev pub KeepsId : (Pull → Pull) → Type 0
KeepsId f = (p : Pull) → (f p).pull_request_id ≡ p.pull_request_id

abbrev pub map_found : (Pull → Pull) → Option Pull → Option Pull
map_found f none = none
map_found f (some p) = some (f p)

pub find_pull-change_pull :
    (id j : ℕ) (f : Pull → Pull) (ps : List Pull)
    → KeepsId f
    → find_pull (change_pull id f ps) j
      ≡ (if nat_eq id j then map_found f (find_pull ps j) else find_pull ps j)
unfolding find_pull change_pull
find_pull-change_pull id j f [] k = ground arith
find_pull-change_pull id j f (p ∷ ps) k = ground (arith, k p, find_pull-change_pull id j f ps k)

Fresh-change_pull :
    (n id : ℕ) (f : Pull → Pull) (ps : List Pull)
    → KeepsId f
    → Fresh n ps
    → Fresh n (change_pull id f ps)
unfolding change_pull
Fresh-change_pull n id f [] k h = tt
Fresh-change_pull n id f (p ∷ ps) k (h, hs) = elim (Bool-cases (nat_eq p.pull_request_id id)) [
  | inl same ↦ rw same (ground (arith, k p, h), Fresh-change_pull n id f ps k hs)
  | inr other ↦ rw other (h, Fresh-change_pull n id f ps k hs)
]

change_pull-IsNumbered :
    (id : ℕ) (f : Pull → Pull) (ps : List Pull)
    → KeepsId f
    → IsNumbered ps
    → IsNumbered (change_pull id f ps)
unfolding change_pull
change_pull-IsNumbered id f [] k h = tt
change_pull-IsNumbered id f (p ∷ ps) k (h, hs) = elim (Bool-cases (nat_eq p.pull_request_id id)) [
  | inl same ↦ rw same (
    rw (k p) (Fresh-change_pull p.pull_request_id id f ps k h),
    change_pull-IsNumbered id f ps k hs,
  )
  | inr other ↦
      rw other
        (Fresh-change_pull p.pull_request_id id f ps k h, change_pull-IsNumbered id f ps k hs)
]

-- The next number is above all that there are.
find_pull-le-max_pull_id : (ps : List Pull) (j : ℕ) → max_pull_id ps < j → find_pull ps j ≡ none
unfolding max_pull_id find_pull
find_pull-le-max_pull_id [] j h = refl
find_pull-le-max_pull_id (p ∷ ps) j h = ground (arith, find_pull-le-max_pull_id ps j)

append-IsNumbered :
    (ps : List Pull) (p : Pull)
    → max_pull_id ps < p.pull_request_id
    → IsNumbered ps
    → IsNumbered (ps ++ p ∷ [])
unfolding max_pull_id
append-IsNumbered [] p h n = (tt, tt)
append-IsNumbered (q ∷ qs) p h (n, ns) = (
  All-append (λ (x : Pull). nat_eq x.pull_request_id q.pull_request_id ≡ false) qs (p ∷ []) n
      (ground arith, tt),
  append-IsNumbered qs p (ground arith) ns,
)

find_pull-append :
    (ps : List Pull) (q : Pull) (j : ℕ) (p : Pull)
    → find_pull ps j ≡ some p
    → find_pull (ps ++ q ∷ []) j ≡ some p
unfolding find_pull
find_pull-append [] q j p h = cc
find_pull-append (r ∷ ps) q j p h = ground (arith, find_pull-append ps q j p)

-- A change of one pull request that is not merged leaves the merged ones.
change_pull-merged :
    (q : Pull) (f : Pull → Pull) (ps : List Pull) (id : ℕ) (p : Pull)
    → KeepsId f
    → find_pull ps q.pull_request_id ≡ some q
    → q.status ≢ "merged"
    → find_pull ps id ≡ some p
    → p.status ≡ "merged"
    → find_pull (change_pull q.pull_request_id f ps) id ≡ some p
change_pull-merged q f ps id p k there open_ found_p done_p =
    elim (Bool-cases (nat_eq q.pull_request_id id)) [
      | inl same ↦
          let e : q.pull_request_id ≡ id = ground arith in
          let both : some q ≡ some p = sym there ∙ ap (find_pull ps) e ∙ found_p in
          let pq : q ≡ p = cc in
          absurd (open_ (subst (λ (u : Pull). u.status ≡ "merged") (sym pq) done_p))
      | inr other ↦ find_pull-change_pull q.pull_request_id id f ps k ∙ rw other found_p
    ]

pub open-ne-merged : (p : Pull) → p.status ≡ "open" → p.status ≢ "merged"
open-ne-merged p o m =
    let both : (p.status == "merged") ≡ false = subst (λ u. (u == "merged") ≡ false) (sym o) refl in
    ground (arith, eq_iff p.status "merged", both, m)

-- One change leaves every merged pull request as it is.
Change-merged :
    {rows rows' : Rows} (id : ℕ) (p : Pull)
    → Change rows rows'
    → find_pull rows.pulls id ≡ some p
    → p.status ≡ "merged"
    → find_pull rows'.pulls id ≡ some p
Change-merged id p (aside same) there m = subst (λ u. find_pull u id ≡ some p) (sym same) there
Change-merged {rows} id p (opened q o n new e) there m =
    subst (λ (u : Rows). find_pull u.pulls id ≡ some p) (sym e)
      (find_pull-append rows.pulls q id p there)
Change-merged {rows} id p (edited q title status found_q o e) there m =
    subst (λ (u : Rows). find_pull u.pulls id ≡ some p) (sym e)
      (change_pull-merged q (updated_pull title status) rows.pulls id p (λ x. refl) found_q o there
        m)
Change-merged {rows} id p (synced q source target base stats r found_q o e) there m =
    subst (λ (u : Rows). find_pull u.pulls id ≡ some p) (sym e)
      (change_pull-merged q (refreshed source target base stats r) rows.pulls id p (λ x. refl)
        found_q (open-ne-merged q o) there m)
Change-merged {rows} id p (joined q from h found_q o matched e) there m =
    subst (λ (u : Rows). find_pull u.pulls id ≡ some p) (sym e)
      (change_pull-merged q (merged h) rows.pulls id p (λ x. refl) found_q o there m)

Change-IsNumbered :
    {rows rows' : Rows} → Change rows rows' → IsNumbered rows.pulls → IsNumbered rows'.pulls
Change-IsNumbered (aside same) n = subst IsNumbered (sym same) n
Change-IsNumbered {rows} (opened q o m new e) n =
    subst (λ (u : Rows). IsNumbered u.pulls) (sym e)
      (append-IsNumbered rows.pulls q (omega arith) n)
Change-IsNumbered {rows} (edited q title status found_q o e) n =
    subst (λ (u : Rows). IsNumbered u.pulls) (sym e)
      (change_pull-IsNumbered q.pull_request_id (updated_pull title status) rows.pulls (λ x. refl)
        n)
Change-IsNumbered {rows} (synced q source target base stats r found_q o e) n =
    subst (λ (u : Rows). IsNumbered u.pulls) (sym e)
      (change_pull-IsNumbered q.pull_request_id (refreshed source target base stats r) rows.pulls
        (λ x. refl) n)
Change-IsNumbered {rows} (joined q from h found_q o matched e) n =
    subst (λ (u : Rows). IsNumbered u.pulls) (sym e)
      (change_pull-IsNumbered q.pull_request_id (merged h) rows.pulls (λ x. refl) n)

-- Along any changes, pull requests keep different numbers, and a merged one stays as it is.
pub Changes-merged :
    {rows rows' : Rows} (id : ℕ) (p : Pull)
    → Changes rows rows'
    → find_pull rows.pulls id ≡ some p
    → p.status ≡ "merged"
    → find_pull rows'.pulls id ≡ some p
Changes-merged id p here there m = there
Changes-merged id p (next before c) there m =
    Change-merged id p c (Changes-merged id p before there m) m

pub Changes-IsNumbered :
    {rows rows' : Rows} → Changes rows rows' → IsNumbered rows.pulls → IsNumbered rows'.pulls
Changes-IsNumbered here n = n
Changes-IsNumbered (next before c) n = Change-IsNumbered c (Changes-IsNumbered before n)

pub Changes-trans : {a b c : Rows} → Changes a b → Changes b c → Changes a c
Changes-trans p here = p
Changes-trans p (next q c) = next (Changes-trans p q) c
