-- ===== src/Commits/MergeBase/Termination.antt =====
-- The search for a merge base ends, in a store with finitely many parent links.
use dit.Prelude.{
  ℕ, zero, suc, ◌+◌, ◌≤◌, ◌<◌, ◌≡◌, refl, String, true, false, Option, some, List, [], ◌∷◌, ◌++◌,
  ◌==◌, Result, ok, raise, has, if◌then◌else◌, length, length-append, arith, eq_iff, Bool-cases,
  inl, inr, eq_of_test,
}
use dit.Objects.{Commit}
use dit.Commits.{Loader, parents_of}
use dit.Commits.MergeBase.{
  Side, Half, add_parents, read_parents, take_current, half_round, Half-cases, Round, Round-cases,
  both_empty, round, search_base,
}

-- How many of the listed hashes are not found yet.
unfoldable pub missing : List String → List String → ℕ
missing [] found = 0
missing (u ∷ us) found = (if has found u then 0 else 1) + missing us found

missing-add_le : (us found : List String) (p : String) → missing us (p ∷ found) ≤ missing us found
unfolding missing has
missing-add_le [] found p = omega arith
missing-add_le (u ∷ us) found p = ground (arith, missing-add_le us found p)

missing-add :
    (us found : List String) (p : String)
    → has found p ≡ false
    → has us p ≡ true
    → missing us (p ∷ found) < missing us found
unfolding missing has
missing-add [] found p new there = cc
missing-add (u ∷ us) found p new there = elim (Bool-cases (u == p)) [
  | inl same ↦ rw (eq_of_test u p same) (ground (arith, new, eq_iff p p, missing-add_le us found p))
  | inr other ↦ ground (arith, other, eq_iff p u, eq_iff u p, missing-add us found p new)
]

-- What a side has still to do.
abbrev pub work : List String → Side → ℕ
work us s = length s.queue + missing us s.ancestors

add_parents-work :
    (us other : List String) (s : Side) (ps : List String) (s' : Side)
    → ((p : String) → has ps p ≡ true → has us p ≡ true)
    → add_parents other s ps ≡ Half.go_on s'
    → work us s' ≤ work us s
unfolding add_parents has
add_parents-work us other s [] s' listed h = ground arith
add_parents-work us other s (p ∷ ps) s' listed h = ground (
  arith,
  eq_iff p p,
  listed p,
  missing-add us s.ancestors p,
  length-append s.queue (p ∷ []),
  add_parents-work us other s ps s' (λ x there. listed x (ground arith)),
  add_parents-work us other (record { ancestors = p ∷ s.ancestors; queue = s.queue ++ p ∷ [] }) ps
      s' (λ x there. listed x (ground arith)),
)

module _ (load : Loader) where
  -- Every parent of a readable commit is listed.
  abbrev pub ListsParents : List String → Type 0
  ListsParents us =
      (c p : String) (k : Option Commit)
      → load c ≡ ok k
      → has (parents_of k) p ≡ true
      → has us p ≡ true

  read_parents-work :
      (us other : List String) (s : Side) (c : String) (r : Result (Option Commit)) (s' : Side)
      → ListsParents us
      → load c ≡ r
      → read_parents other s r ≡ Half.go_on s'
      → work us s' ≤ work us s
  unfolding read_parents
  read_parents-work us other s c (raise e) s' listed read h = cc
  read_parents-work us other s c (ok k) s' listed read h =
      add_parents-work us other s (parents_of k) s' (λ p there. listed c p k read there) h

  -- Half a round takes a hash off a queue that has one, and adds no work.
  half_round-work :
      (us other ancestors queue : List String) (s' : Side)
      → ListsParents us
      → half_round load other ancestors queue ≡ Half.go_on s'
      → work us s' + (if both_empty queue [] then 0 else 1) ≤ length queue + missing us ancestors
  unfolding half_round take_current
  half_round-work us other ancestors [] s' listed h = ground arith
  half_round-work us other ancestors (c ∷ queue) s' listed h = ground (
    arith,
    read_parents-work us other (record { ancestors = ancestors; queue = queue }) c (load c) s'
        listed refl,
  )

  -- A round that goes on is a half round on each side, one of which has a hash to take.
  pub round-go_on :
      (a b a' b' : Side)
      → round load a b ≡ Round.go_on a' b'
      → (both_empty a.queue b.queue ≡ false)
        × (half_round load b.ancestors a.ancestors a.queue ≡ Half.go_on a')
        × (half_round load a'.ancestors b.ancestors b.queue ≡ Half.go_on b')
  unfolding round
  round-go_on a b a' b' h = elim (Bool-cases (both_empty a.queue b.queue)) [
    | inl empty ↦ ground (arith, empty, h)
    | inr more ↦ elim (Half-cases (half_round load b.ancestors a.ancestors a.queue)) [
      | inl (r, e) ↦ ground (arith, more, e, h)
      | inr (s, e) ↦ elim (Half-cases (half_round load s.ancestors b.ancestors b.queue)) [
        | inl (r, f) ↦ ground (arith, more, e, f, h)
        | inr (t, f) ↦
            let g : Round.go_on s t ≡ Round.go_on a' b' = rw (more, e, f, round) at h in
            let same : s ≡ a' = cc in
            let same' : t ≡ b' = cc in (more, rw same at e, rw (same, same') at f)
      ]
    ]
  ]

  some_work :
      (p q : List String)
      → both_empty p q ≡ false
      → 1 ≤ (if both_empty p [] then 0 else 1) + (if both_empty q [] then 0 else 1)
  some_work [] [] h = cc
  some_work [] (x ∷ q) h = omega arith
  some_work (x ∷ p) [] h = omega arith
  some_work (x ∷ p) (y ∷ q) h = omega arith

  round-work :
      (us : List String) (a b a' b' : Side)
      → ListsParents us
      → round load a b ≡ Round.go_on a' b'
      → work us a' + work us b' < work us a + work us b
  round-work us a b a' b' listed h =
      let (more, e, f) = round-go_on a b a' b' h in
      omega (
        arith,
        some_work a.queue b.queue more,
        half_round-work us b.ancestors a.ancestors a.queue a' listed e,
        half_round-work us a'.ancestors b.ancestors b.queue b' listed f,
      )

  -- Fuel above the work of the two sides is enough.
  pub search_base_total :
      (us : List String)
      → ListsParents us
      → (fuel : ℕ) (a b : Side) → work us a + work us b < fuel
      → (r : Result (Option String)) × (search_base load fuel a b ≡ some r)
  unfolding search_base
  search_base_total us listed zero a b h = absurd (omega arith)
  search_base_total us listed (suc fuel) a b h = elim (Round-cases (round load a b)) [
    | inl (r, e) ↦ (r, rw (e, search_base))
    | inr (a', b', e) ↦
        rw (e, search_base)
          (search_base_total us listed fuel a' b' (omega (arith, round-work us a b a' b' listed e)))
  ]
