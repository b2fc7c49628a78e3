-- ===== src/Diff/Pairing.antt =====
-- The loop that pairs added rows with removed rows of the same fingerprint.
use dit.Prelude.{
  ◌≡◌, refl, String, some, List, [], ◌∷◌, ◌++◌, ◌==◌, ◌||◌, ok, has, arith, All, All-append,
  Option-cases, inl, inr,
}
use dit.Prelude.Dict
use dit.Prelude.Dict.{Dict}
use dit.Objects.{ManifestEntry, fingerprint}
use dit.Diff.{Matching, match_found, match_one, match_added, matched, old_hashes, new_hashes}
use dit.Diff.Index.{IsIndexed, take_first_lem}

old_hashes-snoc :
    (ts : List (String × String × String)) (t : String × String × String) (k : String)
    → has (old_hashes (ts ++ t ∷ [])) k ≡ (has (old_hashes ts) k || t.0 == k)
unfolding has old_hashes
old_hashes-snoc [] t k = ground arith
old_hashes-snoc (s ∷ ts) t k = ground (arith, old_hashes-snoc ts t k)

new_hashes-snoc :
    (ts : List (String × String × String)) (t : String × String × String) (k : String)
    → has (new_hashes (ts ++ t ∷ [])) k ≡ (has (new_hashes ts) k || t.1 == k)
unfolding has new_hashes
new_hashes-snoc [] t k = ground arith
new_hashes-snoc (s ∷ ts) t k = ground (arith, new_hashes-snoc ts t k)

has-snoc_old :
    (ts : List (String × String × String)) (hs : List String) (t : String × String × String)
    (k : String)
    → has hs k ≡ has (old_hashes ts) k
    → has (t.0 ∷ hs) k ≡ has (old_hashes (ts ++ t ∷ [])) k
unfolding has
has-snoc_old ts hs t k h = ground (arith, h, old_hashes-snoc ts t k)

has-snoc_new :
    (ts : List (String × String × String)) (hs : List String) (t : String × String × String)
    (k : String)
    → has hs k ≡ has (new_hashes ts) k
    → has (t.1 ∷ hs) k ≡ has (new_hashes (ts ++ t ∷ [])) k
unfolding has
has-snoc_new ts hs t k h = ground (arith, h, new_hashes-snoc ts t k)

-- `P` is what is known of the removed rows, `Q` of the added ones.
module _ (P Q : ManifestEntry → Type 0) where
  -- A refreshed row: the fingerprint of a removed row and of an added one.
  abbrev pub IsRefresh : String × String × String → Type 0
  IsRefresh t =
      (o : ManifestEntry) × (n : ManifestEntry) × P o
      × Q n
      × (t ≡ (o.row_hash, n.row_hash, t.2))
      × (fingerprint o ≡ some t.2)
      × (fingerprint n ≡ some t.2)

  -- Every pair is a refresh, and the sets of the loop hold the hashes of the pairs.
  pub record IsMatching (m : Matching) : Type 0 where
    pub indexed : IsIndexed P m.old_by_qfp
    pub refreshes : All IsRefresh m.refreshed
    pub olds : (h : String) → has m.refreshed_old_hashes h ≡ has (old_hashes m.refreshed) h
    pub news : (h : String) → has m.refreshed_new_hashes h ≡ has (new_hashes m.refreshed) h

  matched-IsMatching :
      (m : Matching) (e : ManifestEntry) (q : String) (o : ManifestEntry)
      (d : Dict (List ManifestEntry))
      → IsMatching m
      → IsIndexed P d
      → IsRefresh (o.row_hash, e.row_hash, q)
      → IsMatching (matched m e q o d)
  matched-IsMatching m e q o d h i r = record {
    indexed = i;
    refreshes = All-append IsRefresh m.refreshed _ h.refreshes (r, tt);
    olds = λ k.
        has-snoc_old m.refreshed m.refreshed_old_hashes (o.row_hash, e.row_hash, q) k (h.olds k);
    news = λ k.
        has-snoc_new m.refreshed m.refreshed_new_hashes (o.row_hash, e.row_hash, q) k (h.news k);
  }

  -- A step of the loop does not raise, and keeps what is known.
  match_one_lem :
      (m : Matching) (e : ManifestEntry)
      → IsMatching m
      → Q e
      → (m' : Matching) × (match_one m e ≡ ok m') × IsMatching m'
  unfolding match_one match_found
  match_one_lem m e h qe = elim (Option-cases (fingerprint e)) [
    | inl absent ↦ (m, rw (absent, match_one), h)
    | inr (q, fp) ↦ elim (Option-cases (Dict.get m.old_by_qfp q)) [
      | inl missing ↦ (m, rw (fp, match_one) (rw (missing, match_found)), h)
      | inr (os, found) ↦
          let (o, d, taken, i, fo, po) = take_first_lem P m.old_by_qfp q os h.indexed found in
          (
            matched m e q o d,
            rw (fp, match_one) (rw (found, match_found) (rw taken)),
            matched-IsMatching m e q o d h i (o, e, po, qe, refl, fo, fp),
          )
    ]
  ]

  pub match_added_lem :
      (m : Matching) (es : List ManifestEntry)
      → IsMatching m
      → All Q es
      → (m' : Matching) × (match_added m es ≡ ok m') × IsMatching m'
  unfolding match_added
  match_added_lem m [] h qs = (m, refl, h)
  match_added_lem m (e ∷ es) h (qe, qs) =
      let (m₁, one, h₁) = match_one_lem m e h qe in
      let (m₂, rest, h₂) = match_added_lem m₁ es h₁ qs in (m₂, rw one rest, h₂)
