-- ===== src/Diff/Index.antt =====
-- The index of removed rows by fingerprint, and the loop that takes rows out of it.
use mathlib.Core.Path.{subst}
use dit.Prelude.{
  ◌≡◌, ◌≢◌, refl, String, some, List, [], ◌∷◌, ◌++◌, ◌==◌, ok, All, All-append, Option-cases,
  Bool-cases, eq_of_test, inl, inr,
}
use dit.Prelude.Dict
use dit.Prelude.Dict.{Dict, get-put, get-pop}
use dit.Objects.{ManifestEntry, fingerprint}
use dit.Diff.{append_at, index_one, index_removed, take_first}

module _ (P : ManifestEntry → Type 0) where
  -- What is listed under a fingerprint: at least one row, each with that fingerprint and `P`.
  abbrev pub Bucket : String → List ManifestEntry → Type 0
  Bucket q es = (es ≢ []) × All (λ e. (fingerprint e ≡ some q) × P e) es

  pub record IsIndexed (d : Dict (List ManifestEntry)) : Type 0 where
    pub at : (q : String) (es : List ManifestEntry) → Dict.get d q ≡ some es → Bucket q es

  snoc-ne-nil : (es : List ManifestEntry) (e : ManifestEntry) → (es ++ e ∷ []) ≢ []
  snoc-ne-nil [] e h = cc
  snoc-ne-nil (x ∷ es) e h = cc

  put-IsIndexed :
      (d : Dict (List ManifestEntry)) (q : String) (es : List ManifestEntry)
      → IsIndexed d
      → Bucket q es
      → IsIndexed (Dict.put d q es)
  put-IsIndexed d q es h b = record {
    at = λ j fs found. elim (Bool-cases (q == j)) [
      | inl same ↦
          let found' : some es ≡ some fs = rw (get-put d q j es, same) at found in
          subst (λ (x : String × List ManifestEntry). Bucket x.0 x.1)
            (cc (eq_of_test q j same, found')) b
      | inr other ↦ h.at j fs (rw (get-put d q j es, other) at found)
    ];
  }

  pop-IsIndexed :
      (d : Dict (List ManifestEntry)) (q : String) → IsIndexed d → IsIndexed (Dict.pop d q)
  pop-IsIndexed d q h = record {
    at = λ j fs found. elim (Bool-cases (q == j)) [
      | inl same ↦ cc (get-pop d q j, same, found)
      | inr other ↦ h.at j fs (rw (get-pop d q j, other) at found)
    ];
  }

  append_at-IsIndexed :
      (d : Dict (List ManifestEntry)) (q : String) (e : ManifestEntry)
      → IsIndexed d
      → fingerprint e ≡ some q
      → P e
      → IsIndexed (append_at d q e)
  unfolding append_at
  append_at-IsIndexed d q e h fp p = elim (Option-cases (Dict.get d q)) [
    | inl absent ↦ rw (absent, append_at) (put-IsIndexed d q (e ∷ []) h ((λ c. cc), ((fp, p), tt)))
    | inr (es, found) ↦
        rw (found, append_at)
          (put-IsIndexed d q (es ++ e ∷ []) h
            (snoc-ne-nil es e, All-append _ es (e ∷ []) (h.at q es found).1 ((fp, p), tt)))
  ]

  index_one-IsIndexed :
      (d : Dict (List ManifestEntry)) (e : ManifestEntry)
      → IsIndexed d
      → P e
      → IsIndexed (index_one d e)
  unfolding index_one
  index_one-IsIndexed d e h p = elim (Option-cases (fingerprint e)) [
    | inl absent ↦ rw (absent, index_one) h
    | inr (q, fp) ↦ rw (fp, index_one) (append_at-IsIndexed d q e h fp p)
  ]

  pub index_removed-IsIndexed :
      (d : Dict (List ManifestEntry)) (es : List ManifestEntry)
      → IsIndexed d
      → All P es
      → IsIndexed (index_removed d es)
  unfolding index_removed
  index_removed-IsIndexed d [] h ps = h
  index_removed-IsIndexed d (e ∷ es) h (p, ps) =
      index_removed-IsIndexed (index_one d e) es (index_one-IsIndexed d e h p) ps

  -- A row can be taken from each list of an index, and the index stays one.
  pub take_first_lem :
      (d : Dict (List ManifestEntry)) (q : String) (os : List ManifestEntry)
      → IsIndexed d
      → Dict.get d q ≡ some os
      → (o : ManifestEntry) × (d' : Dict (List ManifestEntry)) × (take_first d q os ≡ ok (o, d'))
        × IsIndexed d'
        × (fingerprint o ≡ some q)
        × P o
  unfolding take_first
  take_first_lem d q [] h found = absurd ((h.at q [] found).0 refl)
  take_first_lem d q (o ∷ []) h found =
      let b = h.at q (o ∷ []) found in
      (o, Dict.pop d q, refl, pop-IsIndexed d q h, b.1.0.0, b.1.0.1)
  take_first_lem d q (o ∷ o' ∷ os) h found =
      let b = h.at q (o ∷ o' ∷ os) found in
      (
        o,
        Dict.put d q (o' ∷ os),
        refl,
        put-IsIndexed d q (o' ∷ os) h ((λ c. cc), b.1.1),
        b.1.0.0,
        b.1.0.1,
      )
