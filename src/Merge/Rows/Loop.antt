-- ===== src/Merge/Rows/Loop.antt =====
-- The loops that build the merged rows: what each added row keeps, they keep.
use dit.Prelude.{
  ◌≡◌, refl, String, Bool, false, some, List, [], ◌∷◌, ◌++◌, ◌==◌, ◌||◌, has, has-append, Distinct,
  filter, All, arith, eq_iff, Bool-cases, Option-cases, inl, inr, eq_of_test,
}
use dit.Objects.{ManifestEntry, row_hashes}
use dit.Merge.Rows.{Merged, add_row, add_rows, Context, winner, is_dropped, keep_row, keep_rows}

pub filter-keeps {ℓ κ} :
    {A : Type ℓ} (P : A → Type κ) (p : A → Bool) (xs : List A) → All P xs → All P (filter p xs)
unfolding filter
filter-keeps P p [] h = tt
filter-keeps P p (x ∷ xs) (h, hs) = elim (Bool-cases (p x)) [
  | inl keep ↦ rw keep (h, filter-keeps P p xs hs)
  | inr drop ↦ rw drop (filter-keeps P p xs hs)
]

-- `P` is kept by each row that is added and has `Q`.
module _ (P : Merged → Type 0) (Q : ManifestEntry → Type 0)
    (add : (m : Merged) (e : ManifestEntry) → Q e → P m → P (add_row m e)) where
  pub add_rows_induction :
      (m : Merged) (es : List ManifestEntry) → All Q es → P m → P (add_rows m es)
  unfolding add_rows
  add_rows_induction m [] qs h = h
  add_rows_induction m (e ∷ es) (q, qs) h = add_rows_induction (add_row m e) es qs (add m e q h)

  module _ (c : Context) (wins : (e r : ManifestEntry) → winner c.resolved e ≡ some r → Q r) where
    keep_row_induction : (m : Merged) (e : ManifestEntry) → Q e → P m → P (keep_row c m e)
    unfolding keep_row
    keep_row_induction m e q h = elim (Bool-cases (has c.conflict_hashes e.row_hash)) [
      | inl clash ↦ rw (clash, keep_row) h
      | inr free ↦ elim (Option-cases (winner c.resolved e)) [
        | inr (r, won) ↦ rw (free, won, keep_row) (add m r (wins e r won) h)
        | inl plain ↦ elim (Bool-cases (is_dropped c e)) [
          | inl gone ↦ rw (free, plain, gone, keep_row) h
          | inr kept ↦ rw (free, plain, kept, keep_row) (add m e q h)
        ]
      ]
    ]

    pub keep_rows_induction :
        (m : Merged) (es : List ManifestEntry) → All Q es → P m → P (keep_rows c m es)
    unfolding keep_rows
    keep_rows_induction m [] qs h = h
    keep_rows_induction m (e ∷ es) (q, qs) h =
        keep_rows_induction (keep_row c m e) es qs (keep_row_induction m e q h)

row_hashes-append :
    (xs ys : List ManifestEntry) → row_hashes (xs ++ ys) ≡ row_hashes xs ++ row_hashes ys
unfolding row_hashes
row_hashes-append [] ys = refl
row_hashes-append (x ∷ xs) ys = rw (row_hashes-append xs ys)

pub has-row_hashes-snoc :
    (xs : List ManifestEntry) (e : ManifestEntry) (h : String)
    → has (row_hashes (xs ++ e ∷ [])) h ≡ (has (row_hashes xs) h || e.row_hash == h)
unfolding row_hashes has
has-row_hashes-snoc [] e h = ground arith
has-row_hashes-snoc (x ∷ xs) e h = ground (arith, has-row_hashes-snoc xs e h)

Distinct-snoc :
    (xs : List String) (x : String) → Distinct xs → has xs x ≡ false → Distinct (xs ++ x ∷ [])
unfolding has
Distinct-snoc [] x d new = (refl, tt)
Distinct-snoc (y ∷ xs) x (d, ds) new = (
  ground (arith, has-append xs (x ∷ []) y, eq_iff x y, eq_iff y x),
  Distinct-snoc xs x ds (ground arith),
)

-- The set of the loop holds the hashes of the merged rows, which are all different.
pub record IsMerged (m : Merged) : Type 0 where
  pub seen : (h : String) → has m.seen_hashes h ≡ has (row_hashes m.rows) h
  pub distinct : Distinct (row_hashes m.rows)

pub add_row-IsMerged :
    (m : Merged) (e : ManifestEntry) → Unit {0} → IsMerged m → IsMerged (add_row m e)
unfolding add_row has
add_row-IsMerged m e q h = elim (Bool-cases (has m.seen_hashes e.row_hash)) [
  | inl old ↦ rw (old, add_row) h
  | inr new ↦
      rw (new, add_row)
        (record {
          seen = λ k. ground (arith, has-row_hashes-snoc m.rows e k, h.seen k);
          distinct = rw (row_hashes-append m.rows (e ∷ [])) (
              unfold row_hashes in
              Distinct-snoc (row_hashes m.rows) e.row_hash h.distinct
                (rw (← h.seen e.row_hash) new));
        })
]

pub has-add_row :
    (m : Merged) (e : ManifestEntry) (h : String)
    → IsMerged m
    → has (row_hashes (add_row m e).rows) h ≡ (has (row_hashes m.rows) h || e.row_hash == h)
unfolding add_row has
has-add_row m e h i = elim (Bool-cases (has m.seen_hashes e.row_hash)) [
  | inl old ↦
      rw (old, add_row)
        (elim (Bool-cases (e.row_hash == h)) [
          | inl same ↦ ground (arith, same, eq_of_test e.row_hash h, i.seen h, old)
          | inr other ↦ ground (arith, other)
        ])
  | inr new ↦ rw (new, add_row) (has-row_hashes-snoc m.rows e h)
]
