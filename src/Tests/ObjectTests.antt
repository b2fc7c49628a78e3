-- ===== src/Tests/ObjectTests.antt =====
-- Round trips of small objects, over texts that are the JSON values themselves.
use mathlib.Core.List.{Perm}
use dit.Prelude.{◌^◌, ◌<◌, ◌≡◌, refl, String, none, some, List, [], ◌∷◌, ok, length, arith}
use dit.Objects.{Manifest, TreeEntry, Tree, Sidecar, Commit}
use dit.Objects.Json.{Json, JsonText}
use dit.Objects.Codec.{
  sort_entries, insert_entry, serialize_manifest, deserialize_manifest, serialize_tree,
  deserialize_tree, serialize_commit, deserialize_commit, serialize_sidecar, deserialize_sidecar,
}
use dit.Objects.RoundTrip.Sorted.{IsOrdered}
use dit.Objects.RoundTrip.{
  deserialize_manifest-serialize_manifest, deserialize_tree-serialize_tree,
  deserialize_commit-serialize_commit, deserialize_sidecar-serialize_sidecar,
}
use dit.Objects.Blob.{Bytes, serialize_blob, deserialize_blob, deserialize_blob-serialize_blob}

abbrev values : JsonText
values = record { Text = Json; dumps = λ j. j; loads = λ j. ok j }

abbrev rows : Manifest
rows = record {
  entries =
      record { row_hash = "a1"; query_fingerprint = some "qa" }
      ∷ record { row_hash = "b1"; query_fingerprint = none }
      ∷ [];
}

abbrev leaf : String → TreeEntry
leaf n = record { name = n; obj_type = "manifest"; obj_hash = "h"; sidecar_hash = none }

abbrev files : Tree
files = record { entries = leaf "b" ∷ leaf "a" ∷ [] }

abbrev merge_commit : Commit
merge_commit = record {
  tree_hash = "t";
  parent_hashes = "p" ∷ "q" ∷ [];
  author = "me";
  message = "Merge";
  timestamp = 1700000000;
}

abbrev metadata : Sidecar
metadata = record {
  manifest_hash = "m";
  entries =
      record {
        row_hash = "a1";
        char_count = 40;
        token_estimate = 10;
        field_count = 2;
        lang = some "en";
      }
      ∷ [];
}

files_sorted : sort_entries files.entries ≡ leaf "a" ∷ leaf "b" ∷ []
unfolding sort_entries insert_entry
files_sorted = refl

deserialize_manifest-serialize_manifest_example :
    deserialize_manifest values (serialize_manifest values rows) ≡ ok rows
deserialize_manifest-serialize_manifest_example =
    deserialize_manifest-serialize_manifest values rows refl

deserialize_tree-serialize_tree_example :
    (es : List TreeEntry) × (deserialize_tree values (serialize_tree values files)
      ≡ ok (record { entries = es }))
    × (es ≡ sort_entries files.entries)
    × IsOrdered es
    × Perm es files.entries
deserialize_tree-serialize_tree_example = deserialize_tree-serialize_tree values files refl

deserialize_commit-serialize_commit_example :
    deserialize_commit values (serialize_commit values merge_commit) ≡ ok merge_commit
deserialize_commit-serialize_commit_example =
    deserialize_commit-serialize_commit values merge_commit refl

deserialize_sidecar-serialize_sidecar_example :
    deserialize_sidecar values (serialize_sidecar values metadata) ≡ ok metadata
deserialize_sidecar-serialize_sidecar_example =
    deserialize_sidecar-serialize_sidecar values metadata refl

abbrev greeting : Bytes
greeting = 72 ∷ 105 ∷ []

few : length greeting < 2 ^ 64
few = omega arith

deserialize_blob-serialize_blob_example :
    (wrapped : Bytes) × (serialize_blob greeting ≡ ok wrapped)
    × (deserialize_blob wrapped ≡ ok greeting)
deserialize_blob-serialize_blob_example = deserialize_blob-serialize_blob greeting few
