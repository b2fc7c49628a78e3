-- ===== src/Objects/RoundTrip/Sorted.antt =====
-- `sort_entries`: the order in which the entries of a tree are written.
use mathlib.Core.List.{Perm}
use mathlib.Core.List.Perm
use Prim.Native.Nat.{Ordering, zero, suc, compare as compare_ℕ}
use Prim.Native.Nat.compare as compare_ℕ
use Prim.Native.Char.{code}
use Prim.Native.String.{compare, then}
use Prim.Native.String.compare
use dit.Prelude.{◌≢◌, ℕ, Bool, true, false, ◌≡◌, refl, List, [], ◌∷◌, String, Bool-cases, inl, inr}
use dit.Objects.{TreeEntry}
use dit.Objects.Json.{str_le}
use dit.Objects.Codec.{insert_entry, sort_entries}

insert_entry-perm : (e : TreeEntry) (es : List TreeEntry) → Perm (insert_entry e es) (e ∷ es)
unfolding insert_entry
insert_entry-perm e [] = Perm.refl (e ∷ [])
insert_entry-perm e (x ∷ xs) = elim (Bool-cases (str_le e.name x.name)) [
  | inl first ↦ rw first (Perm.refl (e ∷ x ∷ xs))
  | inr later ↦ rw later (Perm.trans (Perm.cons x (insert_entry-perm e xs)) (Perm.swap e x xs))
]

pub sort_entries-perm : (es : List TreeEntry) → Perm (sort_entries es) es
unfolding sort_entries
sort_entries-perm [] = Perm.refl []
sort_entries-perm (e ∷ es) =
    Perm.trans (insert_entry-perm e (sort_entries es)) (Perm.cons e (sort_entries-perm es))

-- The other way round.
abbrev turned : Ordering → Ordering
turned Ordering.lt = Ordering.gt
turned Ordering.eq = Ordering.eq
turned Ordering.gt = Ordering.lt

compare_ℕ-turned : (m n : ℕ) → compare_ℕ n m ≡ turned (compare_ℕ m n)
compare_ℕ-turned zero zero = rw compare_ℕ.zero-zero refl
compare_ℕ-turned zero (suc n) = rw (compare_ℕ.zero-suc n, compare_ℕ.suc-zero n) refl
compare_ℕ-turned (suc m) zero = rw (compare_ℕ.zero-suc m, compare_ℕ.suc-zero m) refl
compare_ℕ-turned (suc m) (suc n) =
    rw (compare_ℕ.suc-suc m n, compare_ℕ.suc-suc n m) (compare_ℕ-turned m n)

turned-then : (a b : Ordering) → then (turned a) (turned b) ≡ turned (then a b)
turned-then Ordering.lt b = refl
turned-then Ordering.eq b = refl
turned-then Ordering.gt b = refl

compare-turned : (s t : String) → compare t s ≡ turned (compare s t)
compare-turned String.[] String.[] = rw compare.nil-nil refl
compare-turned String.[] (String.◌∷◌ d t) = rw (compare.nil-cons d t, compare.cons-nil d t) refl
compare-turned (String.◌∷◌ c s) String.[] = rw (compare.nil-cons c s, compare.cons-nil c s) refl
compare-turned (String.◌∷◌ c s) (String.◌∷◌ d t) =
    rw
      (
        compare.cons-cons c d s t,
        compare.cons-cons d c t s,
        compare_ℕ-turned (code c) (code d),
        compare-turned s t,
      )
      (turned-then (compare_ℕ (code c) (code d)) (compare s t))

-- The two answers of the test of the sort.
abbrev le_of : Ordering → Bool
le_of o = elim o [ Ordering.gt ↦ false | _ ↦ true ]

le_of-true : (o : Ordering) → le_of o ≡ true → o ≢ Ordering.gt
le_of-true Ordering.lt h e = cc
le_of-true Ordering.eq h e = cc
le_of-true Ordering.gt h e = cc

le_of-false : (o : Ordering) → le_of o ≡ false → turned o ≢ Ordering.gt
le_of-false Ordering.lt h e = cc
le_of-false Ordering.eq h e = cc
le_of-false Ordering.gt h e = cc

str_le-compare : (s t : String) → str_le s t ≡ true → compare s t ≢ Ordering.gt
str_le-compare s t le = le_of-true (compare s t) le

str_le-total : (s t : String) → str_le s t ≡ false → compare t s ≢ Ordering.gt
str_le-total s t later = rw (compare-turned s t) (le_of-false (compare s t) later)

-- Each name is followed by one that is not before it, by code points.
abbrev pub IsOrdered : List TreeEntry → Type 0
IsOrdered [] = Unit
IsOrdered (e ∷ []) = Unit
IsOrdered (e ∷ x ∷ xs) = (compare e.name x.name ≢ Ordering.gt) × IsOrdered (x ∷ xs)

behind :
    (e x y : TreeEntry) (ys : List TreeEntry)
    → compare x.name e.name ≢ Ordering.gt
    → compare x.name y.name ≢ Ordering.gt
    → IsOrdered (insert_entry e (y ∷ ys))
    → IsOrdered (x ∷ insert_entry e (y ∷ ys))
unfolding insert_entry
behind e x y ys xe xy o = elim (Bool-cases (str_le e.name y.name)) [
  | inl first ↦ rw first (xe, rw first at o)
  | inr later ↦ rw later (xy, rw later at o)
]

insert_entry-IsOrdered :
    (e : TreeEntry) (es : List TreeEntry) → IsOrdered es → IsOrdered (insert_entry e es)
unfolding insert_entry
insert_entry-IsOrdered e [] o = tt
insert_entry-IsOrdered e (x ∷ []) o = elim (Bool-cases (str_le e.name x.name)) [
  | inl first ↦ rw first (str_le-compare e.name x.name first, tt)
  | inr later ↦ rw later (str_le-total e.name x.name later, tt)
]
insert_entry-IsOrdered e (x ∷ y ∷ ys) (xy, o) = elim (Bool-cases (str_le e.name x.name)) [
  | inl first ↦ rw first (str_le-compare e.name x.name first, (xy, o))
  | inr later ↦
      rw later (
        behind e x y ys (str_le-total e.name x.name later) xy (insert_entry-IsOrdered e (y ∷ ys) o))
]

pub sort_entries-IsOrdered : (es : List TreeEntry) → IsOrdered (sort_entries es)
unfolding sort_entries
sort_entries-IsOrdered [] = tt
sort_entries-IsOrdered (e ∷ es) =
    insert_entry-IsOrdered e (sort_entries es) (sort_entries-IsOrdered es)
