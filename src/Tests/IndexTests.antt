-- ===== src/Tests/IndexTests.antt =====
-- An index in the old format.
use dit.Prelude.{◌≡◌, none, some, [], ◌∷◌, ◌==◌, if◌then◌else◌}
use dit.Index.{old_format, IndexFile, stage, stage_delete, unstage}
use dit.Index.Staging.{staged_at, entries_typed-stage}

abbrev file : IndexFile
file = some (("g", old_format "h1") ∷ ("f", old_format "h0") ∷ [])

entries_typed-stage_example :
    (staged_at (stage file "f" "h2" "blob") "g"
      ≡ (if "f" == "g" then some ("blob", "h2") else staged_at file "g"))
    × (staged_at (stage_delete file "f") "g"
        ≡ (if "f" == "g" then some ("delete", "") else staged_at file "g"))
    × (staged_at (unstage file "f") "g" ≡ (if "f" == "g" then none else staged_at file "g"))
entries_typed-stage_example = entries_typed-stage file "f" "h2" "blob" "g"
