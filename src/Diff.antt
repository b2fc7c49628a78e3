-- ===== src/Diff.antt =====
-- core/diff.py
use dit.Prelude.{
  ◌≡◌, refl, String, Bool, true, false, not, ◌&&◌, Option, none, some, List, [], ◌∷◌, ◌++◌, ◌==◌,
  Result, ok, raise, ◌>>=◌, index_error, has, filter, if◌then◌else◌,
}
use dit.Prelude.Dict
use dit.Prelude.Dict.{Dict}
use dit.Objects.{ManifestEntry, Manifest, row_hashes, entries_eq, fingerprint}
pub mod Index
pub mod Pairing
pub mod Patch
pub mod Correct
pub mod NewRows

pub record DiffResult : Type 0 where
  pub added : List ManifestEntry
  pub removed : List ManifestEntry
  -- (old row hash, new row hash, query fingerprint)
  pub refreshed : List (String × String × String)

-- `old_by_qfp.setdefault(q, []).append(e)`
unfoldable pub append_at :
    Dict (List ManifestEntry) → String → ManifestEntry → Dict (List ManifestEntry)
append_at d q e = elim (Dict.get d q) [
  | none ↦ Dict.put d q (e ∷ [])
  | some es ↦ Dict.put d q (es ++ e ∷ [])
]

unfoldable pub index_one : Dict (List ManifestEntry) → ManifestEntry → Dict (List ManifestEntry)
unfolding append_at
index_one d e = elim (fingerprint e) [ none ↦ d | some q ↦ append_at d q e ]

-- The first loop: the removed rows that have a fingerprint, by fingerprint.
unfoldable pub index_removed :
    Dict (List ManifestEntry) → List ManifestEntry → Dict (List ManifestEntry)
index_removed d [] = d
index_removed d (e ∷ es) = index_removed (index_one d e) es

-- The variables of the second loop.
pub record Matching : Type 0 where
  pub old_by_qfp : Dict (List ManifestEntry)
  pub refreshed : List (String × String × String)
  pub refreshed_old_hashes : List String
  pub refreshed_new_hashes : List String

-- `.pop(0)`, and `del` of a list that is empty now
unfoldable pub take_first :
    Dict (List ManifestEntry)
    → String
    → List ManifestEntry
    → Result (ManifestEntry × Dict (List ManifestEntry))
take_first d q [] = raise index_error
take_first d q (o ∷ []) = ok (o, Dict.pop d q)
take_first d q (o ∷ o' ∷ os) = ok (o, Dict.put d q (o' ∷ os))

abbrev pub matched :
    Matching → ManifestEntry → String → ManifestEntry → Dict (List ManifestEntry) → Matching
matched m e q o d = record {
  old_by_qfp = d;
  refreshed = m.refreshed ++ (o.row_hash, e.row_hash, q) ∷ [];
  refreshed_old_hashes = o.row_hash ∷ m.refreshed_old_hashes;
  refreshed_new_hashes = e.row_hash ∷ m.refreshed_new_hashes;
}

-- The body of the second loop, at the fingerprint and the list found under it.
unfoldable pub match_found :
    Matching → ManifestEntry → String → Option (List ManifestEntry) → Result Matching
match_found m e q none = ok m
match_found m e q (some os) = do (o, d) ← take_first m.old_by_qfp q os; ok (matched m e q o d)

unfoldable pub match_one : Matching → ManifestEntry → Result Matching
match_one m e = elim (fingerprint e) [
  | none ↦ ok m
  | some q ↦ match_found m e q (Dict.get m.old_by_qfp q)
]

unfoldable pub match_added : Matching → List ManifestEntry → Result Matching
match_added m [] = ok m
match_added m (e ∷ es) = do m' ← match_one m e; match_added m' es

-- The first and the second components of `refreshed`.
unfoldable pub old_hashes : List (String × String × String) → List String
old_hashes [] = []
old_hashes ((o, n, q) ∷ ts) = o ∷ old_hashes ts

unfoldable pub new_hashes : List (String × String × String) → List String
new_hashes [] = []
new_hashes ((o, n, q) ∷ ts) = n ∷ new_hashes ts

-- `[e for e in entries if e.row_hash not in hashes]`
abbrev pub not_in : List String → List ManifestEntry → List ManifestEntry
not_in hashes = filter (λ e. not (has hashes e.row_hash))

abbrev pub is_empty {ℓ} : {A : Type ℓ} → List A → Bool
is_empty [] = true
is_empty (x ∷ xs) = false

abbrev pub is_unchanged : DiffResult → Bool
is_unchanged r = is_empty r.added && is_empty r.removed && is_empty r.refreshed

-- A change of order alone is shown as a replacement of all rows.
unfoldable pub surface_order : Manifest → Manifest → DiffResult → DiffResult
surface_order old new r =
    if is_unchanged r && not (entries_eq old.entries new.entries)
    then record r { added = new.entries; removed = old.entries }
    else r

unfoldable pub diff_manifests : Manifest → Manifest → Result DiffResult
unfolding surface_order
diff_manifests old new = do
  let raw_removed = not_in (row_hashes new.entries) old.entries
  let raw_added = not_in (row_hashes old.entries) new.entries
  m ←
      match_added
        (record {
          old_by_qfp = index_removed [] raw_removed;
          refreshed = [];
          refreshed_old_hashes = [];
          refreshed_new_hashes = [];
        })
        raw_added
  ok (
      surface_order old new (record {
        added = not_in m.refreshed_new_hashes raw_added;
        removed = not_in m.refreshed_old_hashes raw_removed;
        refreshed = m.refreshed;
      }))
