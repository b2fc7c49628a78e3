-- ===== src/Server/Pulls/Resolve/Choices.antt =====
-- The rows that a request to resolve conflicts chooses.
use mathlib.Core.List.{Mem, mem-cons_self, mem-cons_of_mem}
use mathlib.Core.Path.{subst}
use dit.Prelude.{
  All, ◌≡◌, ◌⊎◌, inl, inr, refl, String, Option, none, some, List, [], ◌∷◌, ◌++◌, ◌==◌, arith,
  eq_of_test, Bool-cases, Option-cases,
}
use dit.Prelude.Dict
use dit.Prelude.Dict.{Dict}
use dit.Objects.{ManifestEntry}
use dit.Merge.{MergeConflict}
use dit.Server.Pulls.Resolve.{
  Resolution, resolution_map, or_nil, first_with, chosen_entry, choose_all,
}

-- The row of one side of a conflict that the request names for its file.
abbrev pub IsPicked : List Resolution → MergeConflict → ManifestEntry → Type 0
IsPicked resolutions c e =
    (asked : Resolution) × Mem asked resolutions
    × (asked.file_path ≡ c.file_path)
    × (e.row_hash ≡ asked.row_hash)
    × Mem e (or_nil c.ours_entries ++ or_nil c.theirs_entries)

first_with-Mem :
    (h : String) (es : List ManifestEntry) (e : ManifestEntry)
    → first_with h es ≡ some e
    → Mem e es × (e.row_hash ≡ h)
unfolding first_with
first_with-Mem h [] e found_ = cc
first_with-Mem h (x ∷ es) e found_ = elim (Bool-cases (x.row_hash == h)) [
  | inl same ↦
      let p : x ≡ e = ground (arith, rw same at found_) in
      (
        subst (λ u. Mem u (x ∷ es)) p mem-cons_self,
        subst (λ (u : ManifestEntry). u.row_hash ≡ h) p (eq_of_test x.row_hash h same),
      )
  | inr other ↦
      let (there, q) = first_with-Mem h es e (rw other at found_) in (mem-cons_of_mem x there, q)
]

resolution_map-Mem :
    (d : Dict String) (rs : List Resolution) (path h : String)
    → Dict.get (resolution_map d rs) path ≡ some h
    → (Dict.get d path ≡ some h)
      ⊎ ((asked : Resolution) × Mem asked rs × (asked.file_path ≡ path) × (h ≡ asked.row_hash))
unfolding resolution_map
resolution_map-Mem d [] path h there = inl there
resolution_map-Mem d (r ∷ rs) path h there =
    elim (resolution_map-Mem (Dict.put d r.file_path r.row_hash) rs path h there) [
      | inr (asked, m, p, q) ↦ inr (asked, mem-cons_of_mem r m, p, q)
      | inl put_ ↦ elim (Bool-cases (r.file_path == path)) [
        | inl same ↦ inr (
          r,
          mem-cons_self,
          eq_of_test r.file_path path same,
          ground (arith, Dict.get-put d r.file_path path r.row_hash),
        )
        | inr other ↦ inl (ground (arith, Dict.get-put d r.file_path path r.row_hash))
      ]
    ]

chosen_entry-IsPicked :
    (resolutions : List Resolution) (c : MergeConflict) (o : Option String) (e : ManifestEntry)
    → Dict.get (resolution_map [] resolutions) c.file_path ≡ o
    → chosen_entry c o ≡ some e
    → IsPicked resolutions c e
unfolding Dict.get
chosen_entry-IsPicked resolutions c none e there picked = cc
chosen_entry-IsPicked resolutions c (some h) e there picked =
    let (m, p) = first_with-Mem h (or_nil c.ours_entries ++ or_nil c.theirs_entries) e picked in
    elim (resolution_map-Mem [] resolutions c.file_path h there) [
      | inl impossible ↦ cc
      | inr (asked, asked_m, path, q) ↦ (asked, asked_m, path, cc, m)
    ]

pub none-some {ℓ} : {A : Type ℓ} {a : A} → none ≡ some a → ⊥
none-some h = cc

-- Every conflict has a row, and every row that was chosen was for a conflict of its file.
pub choose_all-IsPicked :
    (resolutions : List Resolution) (chosen out : Dict ManifestEntry) (cs : List MergeConflict)
    → choose_all (resolution_map [] resolutions) chosen cs ≡ some out
    → All (λ c. (e : ManifestEntry) × IsPicked resolutions c e) cs
      × ((path : String) (e : ManifestEntry)
          → Dict.get out path ≡ some e
          → (Dict.get chosen path ≡ some e)
            ⊎ ((c : MergeConflict) × Mem c cs × (c.file_path ≡ path) × IsPicked resolutions c e))
unfolding choose_all
choose_all-IsPicked resolutions chosen out [] run =
    let same : chosen ≡ out = cc in (tt, λ path e there. inl (rw same there))
choose_all-IsPicked resolutions chosen out (c ∷ cs) run =
    elim (Option-cases (chosen_entry c (Dict.get (resolution_map [] resolutions) c.file_path))) [
      | inl absent ↦
          let impossible : none ≡ some out = rw (absent, choose_all) at run in
          absurd (none-some impossible)
      | inr (e, there) ↦
          let (each_, from) =
            choose_all-IsPicked resolutions (Dict.put chosen c.file_path e) out cs
              (rw (there, choose_all) at run) in
          let picked = chosen_entry-IsPicked resolutions c _ e refl there in
          (
            ((e, picked), each_),
            λ path e' got. elim (from path e' got) [
              | inr (c', m, p, q) ↦ inr (c', mem-cons_of_mem c m, p, q)
              | inl put_ ↦ elim (Bool-cases (c.file_path == path)) [
                | inl same ↦
                    let p : e ≡ e' = ground (arith, Dict.get-put chosen c.file_path path e) in
                    inr (
                      c,
                      mem-cons_self,
                      eq_of_test c.file_path path same,
                      subst (IsPicked resolutions c) p picked,
                    )
                | inr other ↦ inl (ground (arith, Dict.get-put chosen c.file_path path e))
              ]
            ],
          )
    ]
