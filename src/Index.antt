-- ===== src/Index.antt =====
-- core/index.py: the staging index, a JSON file. Its lock, and other processes, are not modelled.
pub mod Staging
use dit.Prelude.{◌≡◌, String, Option, none, some, List, [], ◌∷◌, if◌then◌else◌}
use dit.Prelude.Dict
use dit.Prelude.Dict.{Dict}
use dit.Objects.Json.{str_le}

-- `{"hash": …, "type": …}`
pub record Staged : Type 0 where
  pub hash : String
  pub kind : String

-- A value in the file: a hash alone in the old format.
pub data Raw : Type 0 where
  old_format : String → Raw
  typed : Staged → Raw

-- The file, where there is one.
abbrev pub IndexFile : Type 0
IndexFile = Option (Dict Raw)

abbrev pub upgrade : Raw → Staged
upgrade (old_format h) = record { hash = h; kind = "manifest" }
upgrade (typed v) = v

unfoldable pub upgrade_all : Dict Raw → Dict Staged
upgrade_all [] = []
upgrade_all ((k, v) ∷ d) = (k, upgrade v) ∷ upgrade_all d

-- `_load`
abbrev pub load : IndexFile → Dict Staged
load none = []
load (some raw) = upgrade_all raw

-- `sort_keys=True`
unfoldable pub insert_key {ℓ} : {V : Type ℓ} → String → V → Dict V → Dict V
insert_key k v [] = (k, v) ∷ []
insert_key k v ((j, w) ∷ d) = if str_le k j then (k, v) ∷ (j, w) ∷ d else (j, w) ∷ insert_key k v d

-- `_write`
unfoldable pub sort_data : Dict Staged → Dict Raw
sort_data [] = []
sort_data ((k, v) ∷ d) = insert_key k (typed v) (sort_data d)

abbrev pub write : Dict Staged → IndexFile
write data' = some (sort_data data')

unfoldable pub stage : IndexFile → String → String → String → IndexFile
stage file rel_path obj_hash obj_type =
    write (Dict.put (load file) rel_path (record { hash = obj_hash; kind = obj_type }))

unfoldable pub stage_delete : IndexFile → String → IndexFile
stage_delete file rel_path =
    write (Dict.put (load file) rel_path (record { hash = ""; kind = "delete" }))

unfoldable pub unstage : IndexFile → String → IndexFile
unstage file rel_path = write (Dict.pop (load file) rel_path)

unfoldable pub clear : IndexFile → IndexFile
clear file = write []

unfoldable pub hashes_of : Dict Staged → Dict String
hashes_of [] = []
hashes_of ((k, v) ∷ d) = (k, v.hash) ∷ hashes_of d

unfoldable pub typed_of : Dict Staged → Dict (String × String)
typed_of [] = []
typed_of ((k, v) ∷ d) = (k, (v.kind, v.hash)) ∷ typed_of d

unfoldable pub entries : IndexFile → Dict String
entries file = hashes_of (load file)

unfoldable pub entries_typed : IndexFile → Dict (String × String)
entries_typed file = typed_of (load file)
