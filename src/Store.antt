-- ===== src/Store.antt =====
-- core/store.py: the content-addressed store of one repository. A directory of objects is a dictionary
-- from file names to files. Failures of the disk, and other processes, are not modelled.
pub mod ReadWrite
pub mod Batch
use Prim.Native.Char.{code}
use dit.Prelude.{
  ℕ, zero, suc, ◌≡◌, String, Bool, true, false, ◌&&◌, ◌||◌, Option, none, some, List, [], ◌∷◌, ◌==◌,
  Result, ok, raise, ◌>>=◌, value_error, leb, nat_eq, if◌then◌else◌, is_some,
}
use dit.Prelude.Dict
use dit.Prelude.Dict.{Dict}

-- The libraries under the store: SHA-256 in hexadecimal, and zstd.
pub record StoreLibs : Type 1 where
  pub Data : Type 0
  pub File : Type 0
  pub sha256 : Data → String
  pub compress : Data → File
  pub decompress : File → Result Data

abbrev pub codes : String → List ℕ
codes String.[] = []
codes (String.◌∷◌ c s) = code c ∷ codes s

abbrev is_hex : ℕ → Bool
is_hex c = (leb b'0' c && leb c b'9') || (leb b'a' c && leb c b'f')

-- `re.match(r"^[0-9a-f]{64}$", …)`: `$` also stands before a newline at the end.
unfoldable pub matches_hex : ℕ → List ℕ → Bool
matches_hex zero [] = true
matches_hex zero (c ∷ []) = nat_eq c 10
matches_hex zero (c ∷ d ∷ cs) = false
matches_hex (suc k) [] = false
matches_hex (suc k) (c ∷ cs) = is_hex c && matches_hex k cs

unfoldable pub is_object_name : String → Bool
unfolding matches_hex
is_object_name hash_hex = matches_hex 64 (codes hash_hex)

-- The check of `_object_path`; the path is determined by the type and the hash.
abbrev pub object_path : String → Result String
object_path hash_hex = if is_object_name hash_hex then ok hash_hex else raise value_error

module _ (libs : StoreLibs) where
  open libs use {Data, File, sha256, compress, decompress}

  pub record ObjectStore : Type 0 where
    -- the files under `root / obj_type`
    pub files : String → Dict File

  abbrev pub with_files : ObjectStore → String → Dict File → ObjectStore
  with_files s obj_type d = record { files = λ t. if obj_type == t then d else s.files t }

  -- The file is written only where none is.
  unfoldable pub store_file : Dict File → String → Data → Dict File
  store_file d h data' = if is_some (Dict.get d h) then d else Dict.put d h (compress data')

  unfoldable pub write : ObjectStore → String → Data → Result (String × ObjectStore)
  unfolding store_file
  write s obj_type data' = do
    h ← object_path (sha256 data')
    ok (h, with_files s obj_type (store_file (s.files obj_type) h data'))

  abbrev pub decompressed : Option File → Result (Option Data)
  decompressed none = ok none
  decompressed (some f) = do x ← decompress f; ok (some x)

  unfoldable pub read : ObjectStore → String → String → Result (Option Data)
  read s obj_type hash_hex = do
    h ← object_path hash_hex
    decompressed (Dict.get (s.files obj_type) h)

  unfoldable pub exists : ObjectStore → String → String → Result Bool
  exists s obj_type hash_hex = do
    h ← object_path hash_hex
    ok (is_some (Dict.get (s.files obj_type) h))

  unfoldable pub check_each : ObjectStore → String → Dict Bool → List String → Result (Dict Bool)
  check_each s obj_type found [] = ok found
  check_each s obj_type found (h ∷ hs) = do
    b ← exists s obj_type h
    check_each s obj_type (Dict.put found h b) hs

  unfoldable pub batch_exists : ObjectStore → String → List String → Result (Dict Bool)
  batch_exists s obj_type hashes = check_each s obj_type [] hashes

  -- Phase 1 of `write_batch`, on the directory `d`: the hashes, and what is to be written.
  unfoldable pub collect : Dict File → Dict Data → List Data → Result (List String × Dict Data)
  collect d to_write [] = ok ([], to_write)
  collect d to_write (x ∷ xs) =
      let h = sha256 x in
      let skip = (do (hs, w) ← collect d to_write xs; ok (h ∷ hs, w)) in
      let queue = (do (hs, w) ← collect d (Dict.put to_write h x) xs; ok (h ∷ hs, w)) in
      if is_some (Dict.get to_write h)
      then skip
      else if is_object_name h
      then (if is_some (Dict.get d h) then skip else queue)
      else raise value_error

  -- Phase 3: the files are written, with the guard against races.
  unfoldable pub flush : Dict File → Dict Data → Dict File
  flush d [] = d
  flush d ((h, x) ∷ w) = flush (store_file d h x) w

  unfoldable pub write_batch : ObjectStore → String → List Data → Result (List String × ObjectStore)
  write_batch s obj_type items = do
    (hs, w) ← collect (s.files obj_type) [] items
    ok (hs, with_files s obj_type (flush (s.files obj_type) w))
