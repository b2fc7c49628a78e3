-- ===== src/Store/Batch.antt =====
-- `write_batch` against a loop of `write`.
use mathlib.Core.Path.{subst, fun_ext}
use dit.Prelude.{
  ◌≡◌, refl, ap, sym, ◌∙◌, String, true, none, List, [], ◌∷◌, ◌++◌, ◌==◌, ◌||◌, Result, ok, ◌>>=◌,
  if◌then◌else◌, is_some, arith, eq_iff, Bool-cases, inl, inr, eq_of_test,
}
use dit.Prelude.Dict
use dit.Prelude.Dict.{Dict, get-put}
use dit.Store.{
  StoreLibs, ObjectStore, is_object_name, with_files, store_file, write, collect, flush,
  write_batch,
}

put-new {ℓ} :
    {V : Type ℓ} (d : Dict V) (k : String) (v : V)
    → Dict.get d k ≡ none
    → Dict.put d k v ≡ d ++ (k, v) ∷ []
unfolding Dict.put Dict.get
put-new [] k v h = refl
put-new ((j, w) ∷ d) k v h = elim (Bool-cases (j == k)) [
  | inl same ↦ ground (arith, same, h)
  | inr other ↦ rw other (ap (◌∷◌ (j, w)) (put-new d k v (ground arith)))
]

module _ (libs : StoreLibs) where
  open libs use {Data, File, sha256, compress, decompress}

  -- `[store.write(obj_type, data) for data in items]`
  unfoldable pub write_each :
      ObjectStore libs → String → List Data → Result (List String × ObjectStore libs)
  write_each s obj_type [] = ok ([], s)
  write_each s obj_type (x ∷ xs) = do
    (h, s₁) ← write libs s obj_type x
    (hs, s₂) ← write_each s₁ obj_type xs
    ok (h ∷ hs, s₂)

  -- The files that a loop of `write` leaves.
  store_all : Dict File → List Data → Dict File
  store_all d [] = d
  store_all d (x ∷ xs) = store_all (store_file libs d (sha256 x) x) xs

  hashes : List Data → List String
  hashes [] = []
  hashes (x ∷ xs) = sha256 x ∷ hashes xs

  flush-append :
      (d : Dict File) (w : Dict Data) (h : String) (x : Data)
      → flush libs d (w ++ (h, x) ∷ []) ≡ store_file libs (flush libs d w) h x
  unfolding flush
  flush-append d [] h x = refl
  flush-append d ((j, y) ∷ w) h x = flush-append (store_file libs d j y) w h x

  -- A file is there after the flush if it was there, or its hash was queued.
  is_some-store_file :
      (d : Dict File) (h j : String) (x : Data)
      → is_some (Dict.get (store_file libs d h x) j) ≡ (is_some (Dict.get d j) || h == j)
  unfolding store_file
  is_some-store_file d h j x = elim (Bool-cases (is_some (Dict.get d h))) [
    | inl there ↦ rw there (elim (Bool-cases (h == j)) [
      | inl same ↦
          let k : is_some (Dict.get d j) ≡ true =
            subst (λ u. is_some (Dict.get d u) ≡ true) (eq_of_test h j same) there in
          rw (k)
      | inr other ↦ ground (arith, other)
    ])
    | inr absent ↦ rw absent (ground (arith, get-put d h j (compress x)))
  ]

  is_some-flush :
      (d : Dict File) (w : Dict Data) (j : String)
      → is_some (Dict.get (flush libs d w) j) ≡ (is_some (Dict.get d j) || is_some (Dict.get w j))
  unfolding flush Dict.get
  is_some-flush d [] j = ground arith
  is_some-flush d ((h, x) ∷ w) j =
      ground (arith, is_some-flush (store_file libs d h x) w j, is_some-store_file d h j x)

  store_file-old :
      (d : Dict File) (h : String) (x : Data)
      → is_some (Dict.get d h) ≡ true
      → store_file libs d h x ≡ d
  unfolding store_file
  store_file-old d h x there = rw there

  again :
      (d : Dict File) (w : Dict Data) (x : Data) (xs : List Data)
      → is_some (Dict.get (flush libs d w) (sha256 x)) ≡ true
      → store_all (flush libs d w) xs ≡ store_all (store_file libs (flush libs d w) (sha256 x) x) xs
  again d w x xs there =
      ap (λ u. store_all u xs) (sym (store_file-old (flush libs d w) (sha256 x) x there))

  -- The batch leaves the files of the loop.
  collect_lem :
      ((x : Data) → is_object_name (sha256 x) ≡ true)
      → (d : Dict File) (w : Dict Data) (xs : List Data)
      → (w' : Dict Data) × (collect libs d w xs ≡ ok (hashes xs, w'))
        × (flush libs d w' ≡ store_all (flush libs d w) xs)
  unfolding collect store_all hashes
  collect_lem digest d w [] = (w, refl, refl)
  collect_lem digest d w (x ∷ xs) = elim (Bool-cases (is_some (Dict.get w (sha256 x)))) [
    | inl queued ↦
        let (w', done, same) = collect_lem digest d w xs in
        (
          w',
          rw queued (rw done),
          same ∙ again d w x xs (ground (arith, queued, is_some-flush d w (sha256 x))),
        )
    | inr new ↦ elim (Bool-cases (is_some (Dict.get d (sha256 x)))) [
      | inl there ↦
          let (w', done, same) = collect_lem digest d w xs in
          (
            w',
            rw (new, digest x, there) (rw done),
            same ∙ again d w x xs (ground (arith, there, is_some-flush d w (sha256 x))),
          )
      | inr absent ↦
          let (w', done, same) = collect_lem digest d (Dict.put w (sha256 x) x) xs in
          (
            w',
            rw (new, digest x, absent) (rw done),
            same
                ∙ ap (λ u. store_all u xs)
                    (ap (flush libs d) (put-new w (sha256 x) x (ground arith))
                      ∙ flush-append d w (sha256 x) x),
          )
    ]
  ]

  same_files :
      (s : ObjectStore libs) (t u : String) → (if t == u then s.files t else s.files u) ≡ s.files u
  same_files s t u = elim (Bool-cases (t == u)) [
    | inl same ↦ rw same (ap s.files (eq_of_test t u same))
    | inr other ↦ rw other
  ]

  last_files :
      (s : ObjectStore libs) (t : String) (d e : Dict File) (u : String)
      → (if t == u then e else if t == u then d else s.files u) ≡ (if t == u then e else s.files u)
  last_files s t d e u = ground arith

  with_files-files : (s : ObjectStore libs) (t : String) → with_files libs s t (s.files t) ≡ s
  with_files-files s t = λ i. record { files = fun_ext (same_files s t) i }

  with_files-with_files :
      (s : ObjectStore libs) (t : String) (d e : Dict File)
      → with_files libs (with_files libs s t d) t e ≡ with_files libs s t e
  with_files-with_files s t d e = λ i. record { files = fun_ext (last_files s t d e) i }

  write_each_lem :
      ((x : Data) → is_object_name (sha256 x) ≡ true)
      → (s : ObjectStore libs) (t : String) (xs : List Data)
      → write_each s t xs ≡ ok (hashes xs, with_files libs s t (store_all (s.files t) xs))
  unfolding write_each write store_all hashes flush
  write_each_lem digest s t [] = rw (with_files-files s t)
  write_each_lem digest s t (x ∷ xs) =
      let d = store_file libs (s.files t) (sha256 x) x in
      let rest = write_each_lem digest (with_files libs s t d) t xs in
      rw (digest x) (
        rw rest (
          ap (λ (u : ObjectStore libs). ok (sha256 x ∷ hashes xs, u))
            (with_files-with_files s t d _
              ∙ ap (λ u. with_files libs s t (store_all u xs)) (rw ((eq_iff t t).1 refl)))))

-- If digests are object names, `write_batch` has the result and leaves the store of a loop of `write`
-- over the items, in spite of its queue and also when items share a hash.
pub write_batch-write_each :
    (libs : StoreLibs)
    → ((x : libs.Data) → is_object_name (libs.sha256 x) ≡ true)
    → (s : ObjectStore libs) (t : String) (xs : List libs.Data)
    → write_batch libs s t xs ≡ write_each libs s t xs
unfolding write_batch flush
write_batch-write_each libs digest s t xs =
    let (w, done, same) = collect_lem libs digest (s.files t) [] xs in
    rw (done, same) (sym (write_each_lem libs digest s t xs))
