-- ===== src/Commits/MergeBase/Correct.antt =====
-- `find_merge_base` finds a common ancestor, and finds none only where there is none.
use mathlib.Core.Path.{subst}
use dit.Prelude.{
  ap, ℕ, zero, suc, ◌+◌, ◌<◌, ◌≡◌, ◌≢◌, refl, String, true, Option, none, some, List, [], ◌∷◌, ◌==◌,
  Result, ok, raise, has, arith, eq_iff, Bool-cases, inl, inr, eq_of_test,
}
use dit.Objects.{Commit}
use dit.Commits.{Loader, parents_of, Ancestor, here, next}
use dit.Commits.MergeBase.{
  Side, Half, add_parents, read_parents, take_current, half_round, Round, Round-cases, then_a,
  then_b, both_empty, round, search_base, start_side, find_merge_base,
}
use dit.Commits.MergeBase.Termination.{ListsParents, missing, search_base_total}
use dit.Commits.MergeBase.SearchSide.{IsSide, Apart, HalfGood, half_round-good}

-- A set that holds the parents of its commits holds the ancestors of its commits.
ancestors_inside :
    (load : Loader) (all : List String)
    → ((c p : String) (k : Option Commit)
        → has all c ≡ true
        → load c ≡ ok k
        → has (parents_of k) p ≡ true
        → has all p ≡ true)
    → {x d : String} → Ancestor load x d
    → has all d ≡ true
    → has all x ≡ true
ancestors_inside load all h (here d) there = there
ancestors_inside load all h (next {c} {p} k up read parent) there =
    h c p k (ancestors_inside load all h up there) read parent

module _ (load : Loader) (ra rb : String) where
  abbrev pub NoCommon : Type 0
  NoCommon = (x : String) → Ancestor load x ra → Ancestor load x rb → ⊥

  -- What a result of the search for a merge base of `ra` and `rb` must be.
  abbrev pub IsAnswer : Result (Option String) → Type 0
  IsAnswer (raise e) = (h : String) × (load h ≡ raise e)
  IsAnswer (ok none) = NoCommon
  IsAnswer (ok (some h)) = Ancestor load h ra × Ancestor load h rb

  abbrev Sides : Side → Side → Type 0
  Sides a b = IsSide load ra [] a × IsSide load rb [] b × Apart load ra b.ancestors a

  side_inside :
      (root : String) (s : Side)
      → IsSide load root [] s
      → s.queue ≡ []
      → (x : String) → Ancestor load x root
      → has s.ancestors x ≡ true
  unfolding has
  side_inside root s h empty x up =
      ancestors_inside load s.ancestors
        (λ c p k there read parent.
          ground (arith, h.closed c p k there read parent, ap (λ q. has q c) empty))
        up h.rooted

  both_empty-nil : (p q : List String) → both_empty p q ≡ true → (p ≡ []) × (q ≡ [])
  both_empty-nil [] [] h = (refl, refl)
  both_empty-nil [] (x ∷ q) h = cc
  both_empty-nil (x ∷ p) q h = cc

  no_common : (a b : Side) → Sides a b → both_empty a.queue b.queue ≡ true → NoCommon
  no_common a b (ha, hb, apart) empty x up_a up_b =
      let (ea, eb) = both_empty-nil a.queue b.queue empty in
      let in_a = side_inside ra a ha ea x up_a in
      let in_b = side_inside rb b hb eb x up_b in ground (arith, apart x in_a, in_b)

  abbrev RoundGood : Round → Type 0
  RoundGood (Round.return r) = IsAnswer r
  RoundGood (Round.go_on a b) = Sides a b

  -- The result of the half round on the second side, and of the whole round.
  then_b-good :
      (a : Side) (x : Half)
      → IsSide load ra [] a
      → HalfGood load rb a.ancestors x
      → RoundGood (then_b a x)
  then_b-good a (Half.return (raise e)) ha g = g
  then_b-good a (Half.return (ok none)) ha g = absurd g
  then_b-good a (Half.return (ok (some h))) ha (up, there) = (ha.reaches h there, up)
  then_b-good a (Half.go_on b) ha (hb, apart) =
      (ha, hb, λ x there. ground (arith, Bool-cases (has b.ancestors x), apart x))

  then_a-good :
      (b : Side) (x : Half)
      → IsSide load rb [] b
      → HalfGood load ra b.ancestors x
      → RoundGood (then_a load b x)
  then_a-good b (Half.return (raise e)) hb g = g
  then_a-good b (Half.return (ok none)) hb g = absurd g
  then_a-good b (Half.return (ok (some h))) hb (up, there) = (up, hb.reaches h there)
  then_a-good b (Half.go_on a) hb (ha, apart) =
      then_b-good a (half_round load a.ancestors b.ancestors b.queue) ha (
        half_round-good load rb a.ancestors b.ancestors b.queue hb
          (λ x there. ground (arith, Bool-cases (has a.ancestors x), apart x)))

  round-good : (a b : Side) → Sides a b → RoundGood (round load a b)
  unfolding round
  round-good a b (ha, hb, apart) = elim (Bool-cases (both_empty a.queue b.queue)) [
    | inl empty ↦ rw empty (no_common a b (ha, hb, apart) empty)
    | inr more ↦ rw more (
        then_a-good b (half_round load b.ancestors a.ancestors a.queue) hb
          (half_round-good load ra b.ancestors a.ancestors a.queue ha apart))
  ]

  search_base-IsAnswer :
      (fuel : ℕ) (a b : Side) (r : Result (Option String))
      → Sides a b
      → search_base load fuel a b ≡ some r
      → IsAnswer r
  unfolding search_base
  search_base-IsAnswer zero a b r h e = cc
  search_base-IsAnswer (suc fuel) a b r h e = elim (Round-cases (round load a b)) [
    | inl (r', q) ↦
        let e' : some r' ≡ some r = rw (q, search_base) at e in
        let p : r' ≡ r = cc in rw (q, p) at (round-good a b h)
    | inr (a', b', q) ↦
        search_base-IsAnswer fuel a' b' r (rw q at (round-good a b h)) (rw (q, search_base) at e)
  ]

start-IsSide : (load : Loader) (root : String) → IsSide load root [] (start_side root)
unfolding has
start-IsSide load root = record {
  reaches =
      λ x there. subst (λ y. Ancestor load y root) (eq_of_test root x (ground arith)) (here root);
  pends = λ x there. cc;
  queued = λ x there. there;
  rooted = ground (arith, eq_iff root root);
  closed = λ c p k there read parent. ground (arith, there);
}

find_merge_base_total :
    (load : Loader) (us : List String) (fuel : ℕ) (a b : String)
    → ListsParents load us
    → 2 + (missing us (a ∷ []) + missing us (b ∷ [])) < fuel
    → (r : Result (Option String)) × (find_merge_base load fuel a b ≡ some r)
unfolding find_merge_base
find_merge_base_total load us fuel a b listed enough = elim (Bool-cases (a == b)) [
  | inl same ↦ (ok (some a), rw same)
  | inr other ↦
      rw other (search_base_total load us listed fuel (start_side a) (start_side b) (omega arith))
]

find_merge_base-IsAnswer :
    (load : Loader) (fuel : ℕ) (a b : String) (r : Result (Option String))
    → find_merge_base load fuel a b ≡ some r
    → IsAnswer load a b r
unfolding find_merge_base has
find_merge_base-IsAnswer load fuel a b r h = elim (Bool-cases (a == b)) [
  | inl same ↦
      let h' : some (ok (some a)) ≡ some r = rw same at h in
      let answer : ok (some a) ≡ r = cc in
      subst (IsAnswer load a b) answer
        (here a, subst (λ y. Ancestor load a y) (eq_of_test a b same) (here a))
  | inr other ↦
      search_base-IsAnswer load a b fuel (start_side a) (start_side b) r
        (
          start-IsSide load a,
          start-IsSide load b,
          λ x there. ground (arith, eq_iff a x, eq_iff b x, eq_iff a b, there),
        )
        (rw other at h)
]

-- With fuel above two plus the parents that are still to be found from each side, in a store whose
-- parent links all lead to hashes listed by `us`, `find_merge_base` returns. A hash that it returns is
-- an ancestor of both commits; where it returns none, they have no common ancestor; and it raises
-- only what a read raised.
pub find_merge_base_lem :
    (load : Loader) (us : List String) (fuel : ℕ) (a b : String)
    → ListsParents load us
    → 2 + (missing us (a ∷ []) + missing us (b ∷ [])) < fuel
    → (r : Result (Option String)) × (find_merge_base load fuel a b ≡ some r) × IsAnswer load a b r
find_merge_base_lem load us fuel a b listed enough =
    let (r, done) = find_merge_base_total load us fuel a b listed enough in
    (r, done, find_merge_base-IsAnswer load fuel a b r done)

-- Let p be the only parent of a, and p and a, in this order, the only parents of b, all three
-- different. Then `find_merge_base` on a and b, in this order, returns p, although a is an ancestor
-- of b.
pub find_merge_base-passes-Ancestor :
    (load : Loader) (fuel : ℕ) (a b p : String) (ca cb : Commit)
    → load a ≡ ok (some ca)
    → load b ≡ ok (some cb)
    → ca.parent_hashes ≡ p ∷ []
    → cb.parent_hashes ≡ p ∷ a ∷ []
    → a ≢ b
    → p ≢ a
    → p ≢ b
    → (find_merge_base load (suc fuel) a b ≡ some (ok (some p))) × Ancestor load a b
unfolding find_merge_base search_base round half_round take_current read_parents add_parents has
find_merge_base-passes-Ancestor load fuel a b p ca cb la lb pa pb ab pna pnb = (
  ground (
    arith,
    la,
    lb,
    pa,
    pb,
    eq_iff a b,
    eq_iff b a,
    eq_iff p a,
    eq_iff a p,
    eq_iff p b,
    eq_iff b p,
    eq_iff p p,
    eq_iff a a,
  ),
  next (some cb) (here b) lb (rw pb (ground (arith, eq_iff a a))),
)
