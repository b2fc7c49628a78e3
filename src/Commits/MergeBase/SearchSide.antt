-- ===== src/Commits/MergeBase/SearchSide.antt =====
-- One side of the search for a merge base, and what half a round does to it.
use dit.Prelude.{
  ◌≡◌, refl, String, true, false, Option, none, some, List, [], ◌∷◌, ◌++◌, ◌==◌, ◌||◌, Result, ok,
  raise, has, has-append, arith, eq_iff, Bool-cases, inl, inr, eq_of_test,
}
use dit.Objects.{Commit}
use dit.Commits.{Loader, parents_of, Ancestor, next}
use dit.Commits.MergeBase.{Side, Half, add_parents, read_parents, take_current, half_round}

module _ (load : Loader) (root : String) where
  -- One side of the search from `root`, with parents `pending` of which each is still to be added.
  pub record IsSide (pending : List String) (s : Side) : Type 0 where
    pub reaches : (x : String) → has s.ancestors x ≡ true → Ancestor load x root
    pub pends : (x : String) → has pending x ≡ true → Ancestor load x root
    pub queued : (x : String) → has s.queue x ≡ true → has s.ancestors x ≡ true
    pub rooted : has s.ancestors root ≡ true
    pub closed :
        (c p : String) (k : Option Commit)
        → has s.ancestors c ≡ true
        → load c ≡ ok k
        → has (parents_of k) p ≡ true
        → (has s.queue c || has s.ancestors p || has pending p) ≡ true

  abbrev pub Apart : List String → Side → Type 0
  Apart other s = (x : String) → has s.ancestors x ≡ true → has other x ≡ false

  -- A half round returns an ancestor that the other side has, or goes on apart from it.
  abbrev pub HalfGood : List String → Half → Type 0
  HalfGood other (Half.return (raise e)) = (h : String) × (load h ≡ raise e)
  HalfGood other (Half.return (ok none)) = ⊥
  HalfGood other (Half.return (ok (some h))) = Ancestor load h root × (has other h ≡ true)
  HalfGood other (Half.go_on s) = IsSide [] s × Apart other s

  skip-IsSide :
      (s : Side) (p : String) (ps : List String)
      → IsSide (p ∷ ps) s
      → has s.ancestors p ≡ true
      → IsSide ps s
  unfolding has
  skip-IsSide s p ps h old = record {
    reaches = h.reaches;
    pends = λ x there. h.pends x (ground arith);
    queued = h.queued;
    rooted = h.rooted;
    closed = λ c q k there read parent.
        ground (arith, h.closed c q k there read parent, old, eq_iff p q);
  }

  abbrev grow : Side → String → Side
  grow s p = record { ancestors = p ∷ s.ancestors; queue = s.queue ++ p ∷ [] }

  has-snoc : (xs : List String) (p x : String) → has (xs ++ p ∷ []) x ≡ (has xs x || p == x)
  unfolding has
  has-snoc xs p x = ground (arith, has-append xs (p ∷ []) x)

  grow-IsSide :
      (s : Side) (p : String) (ps : List String) → IsSide (p ∷ ps) s → IsSide ps (grow s p)
  unfolding has
  grow-IsSide s p ps h = record {
    reaches = λ x there. elim (Bool-cases (p == x)) [
      | inl same ↦ h.pends x (ground arith)
      | inr other ↦ h.reaches x (ground arith)
    ];
    pends = λ x there. h.pends x (ground arith);
    queued = λ x there. ground (arith, has-snoc s.queue p x, h.queued x);
    rooted = ground (arith, h.rooted);
    closed = λ c q k there read parent. elim (Bool-cases (p == c)) [
      | inl same ↦ ground (arith, has-snoc s.queue p c, same)
      | inr other ↦ ground (
        arith,
        has-snoc s.queue p c,
        has-snoc s.queue p q,
        h.closed c q k (ground arith) read parent,
      )
    ];
  }

  add_parents-good :
      (other : List String) (s : Side) (ps : List String)
      → IsSide ps s
      → Apart other s
      → HalfGood other (add_parents other s ps)
  unfolding add_parents has
  add_parents-good other s [] h apart = (h, apart)
  add_parents-good other s (p ∷ ps) h apart = elim (Bool-cases (has s.ancestors p)) [
    | inl old ↦ rw old (add_parents-good other s ps (skip-IsSide s p ps h old) apart)
    | inr new ↦ elim (Bool-cases (has other p)) [
      | inl hit ↦ rw (new, hit) (h.pends p (ground (arith, eq_iff p p)), hit)
      | inr miss ↦
          rw (new, miss)
            (add_parents-good other (grow s p) ps (grow-IsSide s p ps h)
              (λ x there. ground (arith, eq_iff p x, apart x, miss)))
    ]
  ]

  -- Taking the first hash off the queue leaves its parents pending.
  pop-IsSide :
      (ancestors queue : List String) (c : String) (k : Option Commit)
      → IsSide [] (record { ancestors = ancestors; queue = c ∷ queue })
      → load c ≡ ok k
      → IsSide (parents_of k) (record { ancestors = ancestors; queue = queue })
  unfolding has
  pop-IsSide ancestors queue c k h read = record {
    reaches = h.reaches;
    pends = λ x there. next k (h.reaches c (h.queued c (ground (arith, eq_iff c c)))) read there;
    queued = λ x there. h.queued x (ground arith);
    rooted = h.rooted;
    closed = λ b q j there readb parent. elim (Bool-cases (c == b)) [
      | inl same ↦
          let kj : j ≡ k = cc (eq_of_test c b same, read, readb) in
          let pending : has (parents_of k) q ≡ true = rw kj at parent in ground (arith, pending)
      | inr other ↦ ground (arith, other, h.closed b q j there readb parent)
    ];
  }

  read_parents-good :
      (other ancestors queue : List String) (c : String) (r : Result (Option Commit))
      → load c ≡ r
      → IsSide [] (record { ancestors = ancestors; queue = c ∷ queue })
      → Apart other (record { ancestors = ancestors; queue = queue })
      → HalfGood other (read_parents other (record { ancestors = ancestors; queue = queue }) r)
  unfolding read_parents
  read_parents-good other ancestors queue c (raise e) read h apart = (c, read)
  read_parents-good other ancestors queue c (ok k) read h apart =
      add_parents-good other (record { ancestors = ancestors; queue = queue }) (parents_of k)
        (pop-IsSide ancestors queue c k h read) apart

  pub half_round-good :
      (other ancestors queue : List String)
      → IsSide [] (record { ancestors = ancestors; queue = queue })
      → Apart other (record { ancestors = ancestors; queue = queue })
      → HalfGood other (half_round load other ancestors queue)
  unfolding half_round take_current has
  half_round-good other ancestors [] h apart = (h, apart)
  half_round-good other ancestors (c ∷ queue) h apart = elim (Bool-cases (has other c)) [
    | inl hit ↦ rw hit (h.reaches c (h.queued c (ground (arith, eq_iff c c))), hit)
    | inr miss ↦ rw miss (read_parents-good other ancestors queue c (load c) refl h apart)
  ]
