-- ===== src/Merge/Rows/Refreshes.antt =====
-- The dictionaries of `merge_manifests`: rows by fingerprint, and the refreshes of a side.
use dit.Prelude.{
  ◌≡◌, refl, ap, String, false, Option, none, some, List, [], ◌∷◌, ◌==◌, has, Distinct, All,
  if◌then◌else◌, arith, Bool-cases, Option-cases, inl, inr, eq_of_test,
}
use dit.Prelude.Dict
use dit.Prelude.Dict.{Dict, get-put, put-Distinct, has-keys}
use dit.Objects.{ManifestEntry, fingerprint}
use dit.Merge.Rows.{by_qfp, refresh_one, refreshes}

-- What is found under a fingerprint is a row of the list with that fingerprint.
pub by_qfp_sound :
    (P : ManifestEntry → Type 0) (d : Dict ManifestEntry) (es : List ManifestEntry)
    → ((q : String) (e : ManifestEntry) → Dict.get d q ≡ some e → (fingerprint e ≡ some q) × P e)
    → All P es
    → (q : String) (e : ManifestEntry) → Dict.get (by_qfp d es) q ≡ some e
    → (fingerprint e ≡ some q) × P e
unfolding by_qfp
by_qfp_sound P d [] h ps q e found = h q e found
by_qfp_sound P d (x ∷ es) h (p, ps) q e found = elim (Option-cases (fingerprint x)) [
  | inl absent ↦ by_qfp_sound P d es h ps q e (rw (absent, by_qfp) at found)
  | inr (k, fp) ↦
      by_qfp_sound P (Dict.put d k x) es
        (λ j y there. elim (Bool-cases (k == j)) [
          | inl same ↦
              let xy : x ≡ y = cc (get-put d k j x, same, there) in
              let kj : k ≡ j = eq_of_test k j same in (cc (xy, kj, fp), rw xy at p)
          | inr other ↦ h j y (rw (get-put d k j x, other) at there)
        ])
        ps q e (rw (fp, by_qfp) at found)
]

pub by_qfp-Distinct :
    (d : Dict ManifestEntry) (es : List ManifestEntry)
    → Distinct (Dict.keys d)
    → Distinct (Dict.keys (by_qfp d es))
unfolding by_qfp
by_qfp-Distinct d [] h = h
by_qfp-Distinct d (x ∷ es) h = elim (Option-cases (fingerprint x)) [
  | inl absent ↦ rw (absent, by_qfp) (by_qfp-Distinct d es h)
  | inr (k, fp) ↦ rw (fp, by_qfp) (by_qfp-Distinct (Dict.put d k x) es (put-Distinct d k x h))
]

-- The row that a side has for a fingerprint of a base row that it lacks.
abbrev pub refresh_of :
    List String → Dict ManifestEntry → Option ManifestEntry → String → Option ManifestEntry
refresh_of side by none q = none
refresh_of side by (some b) q = if has side b.row_hash then none else Dict.get by q

abbrev or_else : Option ManifestEntry → Option ManifestEntry → Option ManifestEntry
or_else none y = y
or_else (some x) y = some x

get-refresh_one :
    (side : List String) (by acc : Dict ManifestEntry) (q j : String) (b : ManifestEntry)
    → Dict.get (refresh_one side by acc q b) j ≡ (
        if q == j then or_else (refresh_of side by (some b) q) (Dict.get acc j) else Dict.get acc j)
unfolding refresh_one
get-refresh_one side by acc q j b = elim (Bool-cases (has side b.row_hash)) [
  | inl there ↦ ground (arith, there)
  | inr gone ↦ elim (Option-cases (Dict.get by q)) [
    | inl absent ↦ ground (arith, gone, absent)
    | inr (e, found) ↦ ground (arith, gone, found, get-put acc q j e)
  ]
]

not_there :
    (d : Dict ManifestEntry) (q : String) → has (Dict.keys d) q ≡ false → Dict.get d q ≡ none
not_there d q h = ground (arith, has-keys d q)

get-refreshes_acc :
    (side : List String) (by acc base : Dict ManifestEntry) (j : String)
    → Distinct (Dict.keys base)
    → Dict.get (refreshes side by acc base) j
      ≡ or_else (refresh_of side by (Dict.get base j) j) (Dict.get acc j)
unfolding refreshes Dict.keys Dict.get
get-refreshes_acc side by acc [] j d = refl
get-refreshes_acc side by acc ((q, b) ∷ base) j (new, d) = elim (Bool-cases (q == j)) [
  | inl same ↦
      let k : q ≡ j = eq_of_test q j same in
      let absent : Dict.get base j ≡ none = rw (← k) (not_there base q new) in
      ground (
        arith,
        same,
        ap (λ (x : String). Dict.get by x) k,
        absent,
        get-refreshes_acc side by (refresh_one side by acc q b) base j d,
        get-refresh_one side by acc q j b,
      )
  | inr other ↦ ground (
    arith,
    other,
    get-refreshes_acc side by (refresh_one side by acc q b) base j d,
    get-refresh_one side by acc q j b,
  )
]

-- The refreshes of a side, at each fingerprint.
pub get-refreshes :
    (side : List String) (by base : Dict ManifestEntry) (q : String)
    → Distinct (Dict.keys base)
    → Dict.get (refreshes side by [] base) q ≡ refresh_of side by (Dict.get base q) q
unfolding Dict.get
get-refreshes side by base q d = ground (arith, get-refreshes_acc side by [] base q d)
