-- ===== src/Merge/Rows/Conflicts.antt =====
-- The conflicts of `merge_manifests`, and the winners of its refreshes.
use mathlib.Core.List.{Mem, mem-append, mem-cons_self}
use mathlib.Core.Logic.Or
use mathlib.Core.Path.{subst}
use dit.Prelude.{
  ◌≡◌, ◌≢◌, refl, String, true, false, none, some, List, [], ◌∷◌, ◌++◌, ◌==◌, ok, has, All,
  All-append, arith, eq_iff, Bool-cases, Option-cases, inl, inr, eq_of_test,
}
use dit.Prelude.Dict
use dit.Prelude.Dict.{Dict, get-put}
use dit.Objects.{ManifestEntry}
use dit.Merge.{MergeConflict}
use dit.Merge.Rows.{Resolution, both_modified, with_conflict, with_winner, resolve_pair, resolve}

module _ (path : String) (base or tr : Dict ManifestEntry) where
  -- Both sides have refreshed the base row of a fingerprint, to different rows.
  pub record IsClash (q : String) (b o t : ManifestEntry) : Type 0 where
    pub of_base : Dict.get base q ≡ some b
    pub of_ours : Dict.get or q ≡ some o
    pub of_theirs : Dict.get tr q ≡ some t
    pub differ : o.row_hash ≢ t.row_hash

  abbrev pub IsGenuine : MergeConflict → Type 0
  IsGenuine c =
      (q : String) × (b : ManifestEntry) × (o : ManifestEntry) × (t : ManifestEntry) × IsClash q b o
        t
      × (c ≡ both_modified path b o t)

  module _ (Q : ManifestEntry → Type 0)
      (known : (q : String) (o : ManifestEntry)
        → Dict.get or q ≡ some o
        → (b : ManifestEntry) × (Dict.get base q ≡ some b))
      (ours_Q : (q : String) (o : ManifestEntry) → Dict.get or q ≡ some o → Q o)
      (theirs_Q : (q : String) (t : ManifestEntry) → Dict.get tr q ≡ some t → Q t) where
    pub record IsResolved (s : Resolution) : Type 0 where
      pub genuine : All IsGenuine s.conflicts
      pub winners : (q : String) (e : ManifestEntry) → Dict.get s.refresh_resolved q ≡ some e → Q e

    with_winner-IsResolved :
        (s : Resolution) (q : String) (e : ManifestEntry)
        → IsResolved s
        → Q e
        → IsResolved (with_winner s q e)
    with_winner-IsResolved s q e h qe = record {
      genuine = h.genuine;
      winners = λ j x found. elim (Bool-cases (q == j)) [
        | inl same ↦
            let ex : e ≡ x = cc (get-put s.refresh_resolved q j e, same, found) in rw ex at qe
        | inr other ↦ h.winners j x (rw (get-put s.refresh_resolved q j e, other) at found)
      ];
    }

    -- What a step of the loop does to the conflicts, at the fingerprint `q`.
    abbrev Steps : String → Resolution → Resolution → Type 0
    Steps q s s' =
        IsResolved s'
        × ((c : MergeConflict) → Mem c s.conflicts → Mem c s'.conflicts)
        × ((b o t : ManifestEntry) → IsClash q b o t → Mem (both_modified path b o t) s'.conflicts)

    IsClash-of :
        (q : String) (b o t : ManifestEntry)
        → Dict.get base q ≡ some b
        → Dict.get or q ≡ some o
        → Dict.get tr q ≡ some t
        → (o.row_hash == t.row_hash) ≡ false
        → IsClash q b o t
    IsClash-of q b o t fb fo ft other = record {
      of_base = fb;
      of_ours = fo;
      of_theirs = ft;
      differ = λ e. ground (arith, other, eq_iff o.row_hash t.row_hash, e);
    }

    resolve_both :
        (s : Resolution) (q : String) (o t : ManifestEntry)
        → IsResolved s
        → Dict.get or q ≡ some o
        → Dict.get tr q ≡ some t
        → (s' : Resolution) × (resolve_pair path base s q (some o) (some t) ≡ ok s') × Steps q s s'
    unfolding resolve_pair
    resolve_both s q o t h fo ft = elim (Bool-cases (o.row_hash == t.row_hash)) [
      | inl same ↦ (
        with_winner s q o,
        rw same,
        (
          with_winner-IsResolved s q o h (ours_Q q o fo),
          (λ c m. m),
          λ b o' t' clash. absurd (
              clash.differ (
                cc
                  (fo, ft, clash.of_ours, clash.of_theirs, eq_of_test o.row_hash t.row_hash same))),
        ),
      )
      | inr other ↦
          let (b, fb) = known q o fo in
          (
            with_conflict s (both_modified path b o t) o.row_hash t.row_hash,
            rw (other, fb),
            (
              record {
                genuine =
                    All-append IsGenuine s.conflicts _ h.genuine
                      ((q, b, o, t, IsClash-of q b o t fb fo ft other, refl), tt);
                winners = h.winners;
              },
              (λ c m. mem-append.1 (Or.inl m)),
              λ b' o' t' clash.
                  subst (λ c. Mem c (s.conflicts ++ both_modified path b o t ∷ []))
                    (cc (fb, fo, ft, clash.of_base, clash.of_ours, clash.of_theirs))
                    (mem-append.1 (Or.inr mem-cons_self)),
            ),
          )
    ]

    no-IsClash_ours :
        (q : String) (b o t : ManifestEntry) → Dict.get or q ≡ none → ¬ IsClash q b o t
    no-IsClash_ours q b o t h c = cc (h, c.of_ours)

    no-IsClash_theirs :
        (q : String) (b o t : ManifestEntry) → Dict.get tr q ≡ none → ¬ IsClash q b o t
    no-IsClash_theirs q b o t h c = cc (h, c.of_theirs)

    resolve_pair_lem :
        (s : Resolution) (q : String)
        → IsResolved s
        → (s' : Resolution) × (resolve_pair path base s q (Dict.get or q) (Dict.get tr q) ≡ ok s')
          × Steps q s s'
    unfolding resolve_pair
    resolve_pair_lem s q h = elim (Option-cases (Dict.get or q)) [
      | inl no_ours ↦ elim (Option-cases (Dict.get tr q)) [
        | inl no_theirs ↦ (
          s,
          rw (no_ours, no_theirs),
          (h, (λ c m. m), λ b o t c. absurd (no-IsClash_ours q b o t no_ours c)),
        )
        | inr (t, ft) ↦ (
          with_winner s q t,
          rw (no_ours, ft),
          (
            with_winner-IsResolved s q t h (theirs_Q q t ft),
            (λ c m. m),
            λ b o t' c. absurd (no-IsClash_ours q b o t' no_ours c),
          ),
        )
      ]
      | inr (o, fo) ↦ elim (Option-cases (Dict.get tr q)) [
        | inl no_theirs ↦ (
          with_winner s q o,
          rw (fo, no_theirs),
          (
            with_winner-IsResolved s q o h (ours_Q q o fo),
            (λ c m. m),
            λ b o' t c. absurd (no-IsClash_theirs q b o' t no_theirs c),
          ),
        )
        | inr (t, ft) ↦
            let (s', done, steps) = resolve_both s q o t h fo ft in (s', rw (fo, ft) done, steps)
      ]
    ]

    resolve_pair_flat :
        (s : Resolution) (q : String)
        → IsResolved s
        → (s' : Resolution) × (resolve_pair path base s q (Dict.get or q) (Dict.get tr q) ≡ ok s')
          × IsResolved s'
          × ((c : MergeConflict) → Mem c s.conflicts → Mem c s'.conflicts)
          × ((b o t : ManifestEntry)
              → IsClash q b o t
              → Mem (both_modified path b o t) s'.conflicts)
    resolve_pair_flat s q h =
        let (s', done, (a, b, c)) = resolve_pair_lem s q h in (s', done, a, b, c)

    -- The loop ends, with genuine conflicts, and with a conflict for each clash it passes.
    pub resolve_lem :
        (s : Resolution) (qs : List String)
        → IsResolved s
        → (s' : Resolution) × (resolve path base or tr s qs ≡ ok s')
          × IsResolved s'
          × ((c : MergeConflict) → Mem c s.conflicts → Mem c s'.conflicts)
          × ((q : String) (b o t : ManifestEntry)
              → has qs q ≡ true
              → IsClash q b o t
              → Mem (both_modified path b o t) s'.conflicts)
    unfolding resolve has
    resolve_lem s [] h = (s, refl, h, (λ c m. m), λ q b o t there clash. cc)
    resolve_lem s (q ∷ qs) h =
        let (s₁, one, h₁, keeps₁, found₁) = resolve_pair_flat s q h in
        let (s₂, rest, h₂, keeps₂, found₂) = resolve_lem s₁ qs h₁ in
        (
          s₂,
          rw one rest,
          h₂,
          (λ c m. keeps₂ c (keeps₁ c m)),
          λ j b o t there clash. elim (Bool-cases (q == j)) [
            | inl same ↦
                keeps₂ (both_modified path b o t)
                  (found₁ b o t (rw (← eq_of_test q j same) at clash))
            | inr other ↦ found₂ j b o t (ground arith) clash
          ],
        )
