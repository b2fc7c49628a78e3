-- ===== src/Store/ReadWrite.antt =====
-- What is written can be read.
use dit.Prelude.{
  ◌≡◌, ◌≢◌, refl, ap, String, true, some, ◌==◌, ok, if◌then◌else◌, is_some, arith, eq_iff,
  Bool-cases, Option-cases, inl, inr, ◌⊎◌, eq_of_test,
}
use mathlib.Core.Path.{subst}
use dit.Prelude.Dict
use dit.Prelude.Dict.{Dict, get-put}
use dit.Store.{
  StoreLibs, ObjectStore, is_object_name, with_files, store_file, write, decompressed, read,
}

module _ (libs : StoreLibs) where
  open libs use {Data, File, sha256, compress, decompress}

  -- What the libraries document: a digest is 64 hexadecimal digits, and zstd gives back what it packed.
  pub record IsLawful : Type 0 where
    pub digest : (x : Data) → is_object_name (sha256 x) ≡ true
    pub unpack : (x : Data) → decompress (compress x) ≡ ok x

  -- No other object is stored under the hash of `x`: SHA-256 has not collided.
  abbrev pub NoCollision : ObjectStore libs → String → Data → Type 0
  NoCollision s obj_type x =
      (f : File) → Dict.get (s.files obj_type) (sha256 x) ≡ some f → decompress f ≡ ok x

  get-store_file :
      (d : Dict File) (h j : String) (x : Data)
      → Dict.get (store_file libs d h x) j ≡ (
          if is_some (Dict.get d h)
          then Dict.get d j
          else if h == j
          then some (compress x)
          else Dict.get d j)
  unfolding store_file
  get-store_file d h j x = elim (Bool-cases (is_some (Dict.get d h))) [
    | inl there ↦ rw there
    | inr absent ↦ rw absent (get-put d h j (compress x))
  ]

  write_then_read :
      (s : ObjectStore libs) (obj_type : String) (x : Data)
      → IsLawful
      → NoCollision s obj_type x
      → decompressed libs (Dict.get (store_file libs (s.files obj_type) (sha256 x) x) (sha256 x))
        ≡ ok (some x)
  write_then_read s obj_type x law fresh =
      elim (Option-cases (Dict.get (s.files obj_type) (sha256 x))) [
        | inl absent ↦ ground (
          arith,
          absent,
          law.unpack x,
          eq_iff (sha256 x) (sha256 x),
          get-store_file (s.files obj_type) (sha256 x) (sha256 x) x,
        )
        | inr (f, there) ↦
            ground (
              arith,
              there,
              fresh f there,
              get-store_file (s.files obj_type) (sha256 x) (sha256 x) x,
            )
      ]

  abbrev written : ObjectStore libs → String → Data → ObjectStore libs
  written s obj_type x =
      with_files libs s obj_type (store_file libs (s.files obj_type) (sha256 x) x)

  get-written :
      (s : ObjectStore libs) (obj_type t h : String) (x : Data)
      → (t ≢ obj_type) ⊎ (h ≢ sha256 x)
      → Dict.get ((written s obj_type x).files t) h ≡ Dict.get (s.files t) h
  get-written s obj_type t h x away = elim (Bool-cases (obj_type == t)) [
    | inl same ↦
        let k : obj_type ≡ t = eq_of_test obj_type t same in
        rw same (
          subst
            (λ u.
              Dict.get (store_file libs (s.files obj_type) (sha256 x) x) h ≡ Dict.get (s.files u) h)
            k
            (ground (
              arith,
              away,
              k,
              eq_iff (sha256 x) h,
              get-store_file (s.files obj_type) (sha256 x) h x,
            )))
    | inr other ↦ rw other
  ]

  read-written :
      (s : ObjectStore libs) (obj_type : String) (x : Data)
      → IsLawful
      → NoCollision s obj_type x
      → read libs (written s obj_type x) obj_type (sha256 x) ≡ ok (some x)
  unfolding read
  read-written s obj_type x law fresh =
      rw (law.digest x, (eq_iff obj_type obj_type).1 refl) (write_then_read s obj_type x law fresh)

  read-written_away :
      (s : ObjectStore libs) (obj_type t h : String) (x : Data)
      → (t ≢ obj_type) ⊎ (h ≢ sha256 x)
      → read libs (written s obj_type x) t h ≡ read libs s t h
  unfolding read
  read-written_away s obj_type t h x away = elim (Bool-cases (is_object_name h)) [
    | inl named ↦ rw named (ap (decompressed libs) (get-written s obj_type t h x away))
    | inr other ↦ rw other
  ]

  -- If digests are object names and decompression undoes compression, and no other object lies under
  -- the hash of `x`, then writing `x` returns its hash, reading that hash gives `x`, and every other
  -- read has the result that it had.
  pub read-write :
      (s : ObjectStore libs) (obj_type : String) (x : Data)
      → IsLawful
      → NoCollision s obj_type x
      → (s' : ObjectStore libs) × (write libs s obj_type x ≡ ok (sha256 x, s'))
        × (read libs s' obj_type (sha256 x) ≡ ok (some x))
        × ((t h : String) → (t ≢ obj_type) ⊎ (h ≢ sha256 x) → read libs s' t h ≡ read libs s t h)
  unfolding write
  read-write s obj_type x law fresh = (
    written s obj_type x,
    rw (law.digest x),
    read-written s obj_type x law fresh,
    λ t h away. read-written_away s obj_type t h x away,
  )
