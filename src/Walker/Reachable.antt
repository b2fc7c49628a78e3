-- ===== src/Walker/Reachable.antt =====
-- `walk_commit_objects` finds what the commit reaches, and nothing else.
use dit.Prelude.{
  Error, ℕ, zero, suc, ◌+◌, ◌<◌, ◌≡◌, refl, sym, String, true, false, some, List, [], ◌∷◌, ◌||◌,
  ◌↔◌, Result, ok, raise, has, arith, Bool-cases, inl, inr,
}
use mathlib.Core.Path.{subst}
use dit.Walker.{
  commit, tree, manifest, Item, Found, nothing_found, seen, mark, push, Contents, collect_leaves,
  Objects, Round, return, go_on, contents, visit, round, walk, walk_commit_objects,
}
use dit.Walker.Items.{
  item_eq, has_item, item_eq_self, eq_of_item_eq, has_item-push, has-add_all, seen-mark,
}
use dit.Walker.Termination.{Round-cases, IsListed, links_left, walk_total}

-- The hashes that an object holds are all among those found.
pub record IsCollected (c : Contents) (r : Found) : Type 0 where
  pub rows : (h : String) → has c.rows h ≡ true → has r.rows h ≡ true
  pub sidecars : (h : String) → has c.sidecars h ≡ true → has r.sidecars h ≡ true
  pub blobs : (h : String) → has c.blobs h ≡ true → has r.blobs h ≡ true

leaves_of : (c : Contents) (r : Found) (x : Item) → IsCollected c (collect_leaves c (mark r x))
leaves_of c r x = record {
  rows = λ h k. ground (arith, has-add_all c.rows h (mark r x).rows, k);
  sidecars = λ h k. ground (arith, has-add_all c.sidecars h (mark r x).sidecars, k);
  blobs = λ h k. ground (arith, has-add_all c.blobs h (mark r x).blobs, k);
}

leaves_stay :
    (b c : Contents) (r : Found) (x : Item)
    → IsCollected b r
    → IsCollected b (collect_leaves c (mark r x))
leaves_stay b c r (commit, g) k = record {
  rows = λ h p. ground (arith, has-add_all c.rows h r.rows, k.rows h p);
  sidecars = λ h p. ground (arith, has-add_all c.sidecars h r.sidecars, k.sidecars h p);
  blobs = λ h p. ground (arith, has-add_all c.blobs h r.blobs, k.blobs h p);
}
leaves_stay b c r (tree, g) k = record {
  rows = λ h p. ground (arith, has-add_all c.rows h r.rows, k.rows h p);
  sidecars = λ h p. ground (arith, has-add_all c.sidecars h r.sidecars, k.sidecars h p);
  blobs = λ h p. ground (arith, has-add_all c.blobs h r.blobs, k.blobs h p);
}
leaves_stay b c r (manifest, g) k = record {
  rows = λ h p. ground (arith, has-add_all c.rows h r.rows, k.rows h p);
  sidecars = λ h p. ground (arith, has-add_all c.sidecars h r.sidecars, k.sidecars h p);
  blobs = λ h p. ground (arith, has-add_all c.blobs h r.blobs, k.blobs h p);
}

module _ (objects : Objects) where
  -- Links of readable objects lead from `root` to the item.
  pub data Reach (root : Item) : Item → Type 0 where
    here : Reach root root
    next :
        {x : Item} (y : Item) (c : Contents)
        → Reach root x
        → contents objects x ≡ ok c
        → has_item c.links y ≡ true
        → Reach root y

  -- What is seen was read, and its links are seen or wait; only what is reached is seen or waits.
  pub record IsWalk (root : Item) (r : Found) (stack : List Item) : Type 0 where
    pub closed :
        (x : Item)
        → seen r x ≡ true
        → (c : Contents) × (contents objects x ≡ ok c)
          × IsCollected c r
          × ((y : Item) → has_item c.links y ≡ true → (seen r y || has_item stack y) ≡ true)
    pub reached : (y : Item) → (seen r y || has_item stack y) ≡ true → Reach root y
    pub started : (seen r root || has_item stack root) ≡ true

  -- A round whose item is seen already.
  skip-IsWalk :
      (root : Item) (r : Found) (x : Item) (stack : List Item)
      → seen r x ≡ true
      → IsWalk root r (x ∷ stack)
      → IsWalk root r stack
  unfolding has_item
  skip-IsWalk root r x stack old w =
      let stays : (y : Item)
          → (seen r y || (item_eq x y || has_item stack y)) ≡ true
          → (seen r y || has_item stack y) ≡ true =
        λ y k. elim (Bool-cases (item_eq x y)) [
          | inl same ↦
              let s : seen r y ≡ true = subst (λ u. seen r u ≡ true) (eq_of_item_eq x y same) old in
              ground arith
          | inr other ↦ ground arith
        ] in
      record {
        closed = λ y seen_y.
            let (c, read, leaves, links) = w.closed y seen_y in
            (c, read, leaves, λ z k. stays z (links z k));
        reached = λ y k. w.reached y (ground arith);
        started = stays root w.started;
      }

  -- A round that reads its item.
  visit-IsWalk :
      (root : Item) (r : Found) (x : Item) (stack : List Item) (c : Contents)
      → contents objects x ≡ ok c
      → IsWalk root r (x ∷ stack)
      → IsWalk root (collect_leaves c (mark r x)) (push c.links stack)
  unfolding has_item
  visit-IsWalk root r x stack c read w =
      let stays : (y : Item)
          → (seen r y || (item_eq x y || has_item stack y)) ≡ true
          → (seen (collect_leaves c (mark r x)) y || has_item (push c.links stack) y) ≡ true =
        λ y k. ground (arith, seen-mark c r x y, has_item-push c.links stack y) in
      record {
        closed = λ y seen_y. elim (Bool-cases (item_eq x y)) [
          | inl same ↦ (
            c,
            subst (λ u. contents objects u ≡ ok c) (eq_of_item_eq x y same) read,
            leaves_of c r x,
            λ z k. ground (arith, has_item-push c.links stack z),
          )
          | inr other ↦
              let (b, read', leaves, links) = w.closed y (ground (arith, seen-mark c r x y)) in
              (b, read', leaves_stay b c r x leaves, λ z k. stays z (links z k))
        ];
        reached = λ y k. elim (Bool-cases (has_item c.links y)) [
          | inl link ↦ next y c (w.reached x (ground (arith, item_eq_self x))) read link
          | inr other ↦
              w.reached y (ground (arith, seen-mark c r x y, has_item-push c.links stack y))
        ];
        started = stays root w.started;
      }

  -- What a round or the whole walk may give.
  IsAnswer : Item → Result Found → Type 0
  IsAnswer root (ok r) = IsWalk root r []
  IsAnswer root (raise e) = (x : Item) × Reach root x × (contents objects x ≡ raise e)

  IsRound : Item → Round → Type 0
  IsRound root (return x) = IsAnswer root x
  IsRound root (go_on r stack) = IsWalk root r stack

  visit-IsRound :
      (root : Item) (r : Found) (x : Item) (stack : List Item) (got : Result Contents)
      → contents objects x ≡ got
      → IsWalk root r (x ∷ stack)
      → IsRound root (visit objects r x stack got)
  unfolding IsRound IsAnswer has_item
  visit-IsRound root r x stack (raise e) read w =
      (x, w.reached x (ground (arith, item_eq_self x)), read)
  visit-IsRound root r x stack (ok c) read w = visit-IsWalk root r x stack c read w

  round-IsRound :
      (root : Item) (r : Found) (stack : List Item)
      → IsWalk root r stack
      → IsRound root (round objects r stack)
  unfolding round IsRound IsAnswer
  round-IsRound root r [] w = w
  round-IsRound root r (x ∷ stack) w = elim (Bool-cases (seen r x)) [
    | inl old ↦ rw old (skip-IsWalk root r x stack old w)
    | inr new ↦ rw new (visit-IsRound root r x stack (contents objects x) refl w)
  ]

  walk-IsAnswer :
      (fuel : ℕ) (root : Item) (r : Found) (stack : List Item) (x : Result Found)
      → IsWalk root r stack
      → walk objects fuel r stack ≡ some x
      → IsAnswer root x
  unfolding walk IsRound
  walk-IsAnswer zero root r stack x w e = cc
  walk-IsAnswer (suc fuel) root r stack x w e = elim (Round-cases (round objects r stack)) [
    | inl (y, q) ↦
        let e' : some y ≡ some x = rw (q, walk) at e in
        let p : y ≡ x = cc in subst (IsAnswer root) p (rw q at (round-IsRound root r stack w))
    | inr (r', s', q) ↦
        walk-IsAnswer fuel root r' s' x (rw q at (round-IsRound root r stack w)) (rw (q, walk) at e)
  ]

  nothing_seen : (x : Item) → seen nothing_found x ≡ false
  unfolding has
  nothing_seen (commit, h) = refl
  nothing_seen (tree, h) = refl
  nothing_seen (manifest, h) = refl

  start-IsWalk : (root : Item) → IsWalk root nothing_found (root ∷ [])
  unfolding has_item has
  start-IsWalk root = record {
    closed = λ x old. absurd (ground (arith, nothing_seen x));
    reached =
        λ y k. subst (Reach root) (eq_of_item_eq root y (ground (arith, nothing_seen y))) here;
    started = ground (arith, nothing_seen root, item_eq_self root);
  }

  -- All that is reached is seen at the end.
  pub seen-Reach :
      (root : Item) (r : Found) (x : Item) → IsWalk root r [] → Reach root x → seen r x ≡ true
  unfolding has_item
  seen-Reach root r x w here = ground (arith, w.started)
  seen-Reach root r z w (next {x} y c p read link) =
      let (b, read', leaves, links) = w.closed x (seen-Reach root r x w p) in
      let same : b ≡ c = cc in
      let k : (seen r y || has_item [] y) ≡ true =
        links y (subst (λ u. has_item u.links y ≡ true) (sym same) link) in
      ground (arith, k)

pub walk_commit_objects-IsWalk :
    (objects : Objects) (fuel : ℕ) (h : String) (r : Found)
    → walk_commit_objects objects fuel h ≡ some (ok r)
    → IsWalk objects (commit, h) r []
unfolding walk_commit_objects IsAnswer
walk_commit_objects-IsWalk objects fuel h r run =
    walk-IsAnswer objects fuel (commit, h) nothing_found ((commit, h) ∷ []) (ok r)
      (start-IsWalk objects (commit, h)) run

-- The walk ends, and what its result is in terms of `contents`.
pub walk_commit_objects_total :
    (objects : Objects) (us : List Item) (fuel : ℕ) (h : String)
    → IsListed objects us
    → 1 + links_left objects us nothing_found < fuel
    → (result : Result Found) × (walk_commit_objects objects fuel h ≡ some result)
      × ((r : Found)
          → result ≡ ok r
          → ((x : Item) → (seen r x ≡ true) ↔ Reach objects (commit, h) x)
            × ((x : Item) (c : Contents)
                → Reach objects (commit, h) x
                → contents objects x ≡ ok c
                → IsCollected c r))
      × ((e : Error)
          → result ≡ raise e
          → (x : Item) × Reach objects (commit, h) x × (contents objects x ≡ raise e))
unfolding walk_commit_objects IsAnswer
walk_commit_objects_total objects us fuel h listed enough =
    let (result, run) =
      walk_total objects us listed fuel nothing_found ((commit, h) ∷ []) (omega arith) in
    let answer =
      walk-IsAnswer objects fuel (commit, h) nothing_found ((commit, h) ∷ []) result
        (start-IsWalk objects (commit, h)) run in
    (
      result,
      run,
      λ r e.
          let w : IsWalk objects (commit, h) r [] = subst (IsAnswer objects (commit, h)) e answer in
          (
            λ x.
                (λ k. w.reached x (ground (arith, k)), λ p. seen-Reach objects (commit, h) r x w p),
            λ x c p read.
                let (b, read', leaves, links) =
                  w.closed x (seen-Reach objects (commit, h) r x w p) in
                let same : b ≡ c = cc in subst (λ u. IsCollected u r) same leaves,
          ),
      λ err e. subst (IsAnswer objects (commit, h)) e answer,
    )
