-- ===== src/Objects/Codec.antt =====
-- The serialisers and deserialisers of core/objects.py.
use dit.Prelude.{String, Option, none, some, List, [], ◌∷◌, Result, ok, ◌>>=◌, if◌then◌else◌}
use dit.Objects.{ManifestEntry, Manifest, TreeEntry, Tree, SidecarEntry, Sidecar, Commit}
use dit.Objects.Json
use dit.Objects.Json.{
  Json, Items, Fields, null, num, str, arr, obj, nil, cons, end, field, sort_keys, item, as_str,
  as_opt_str, as_num, as_items, str_le, JsonText,
}

abbrev pub opt_str : Option String → Json
opt_str none = null
opt_str (some s) = str s

-- Manifests.

unfoldable pub entry_json : ManifestEntry → Json
entry_json e = obj (
    field "row_hash" (str e.row_hash) (field "query_fingerprint" (opt_str e.query_fingerprint) end))

unfoldable pub entries_json : List ManifestEntry → Items
entries_json [] = nil
entries_json (e ∷ es) = cons (entry_json e) (entries_json es)

unfoldable pub manifest_json : Manifest → Json
manifest_json m =
    obj (field "type" (str "manifest") (field "entries" (arr (entries_json m.entries)) end))

unfoldable pub read_entry : Json → Result ManifestEntry
read_entry j = do
  h ← item j "row_hash" >>= as_str
  q ← Json.get j "query_fingerprint" >>= as_opt_str
  ok (record { row_hash = h; query_fingerprint = q })

unfoldable pub read_entries : Items → Result (List ManifestEntry)
read_entries nil = ok []
read_entries (cons x xs) = do e ← read_entry x; es ← read_entries xs; ok (e ∷ es)

unfoldable pub read_manifest : Json → Result Manifest
read_manifest j = do
  xs ← item j "entries" >>= as_items
  es ← read_entries xs
  ok (record { entries = es })

-- Trees: the entries are sorted by name.

unfoldable pub insert_entry : TreeEntry → List TreeEntry → List TreeEntry
insert_entry e [] = e ∷ []
insert_entry e (x ∷ xs) = if str_le e.name x.name then e ∷ x ∷ xs else x ∷ insert_entry e xs

unfoldable pub sort_entries : List TreeEntry → List TreeEntry
sort_entries [] = []
sort_entries (e ∷ es) = insert_entry e (sort_entries es)

abbrev pub sidecar_field : Option String → Fields
sidecar_field none = end
sidecar_field (some s) = field "sidecar_hash" (str s) end

unfoldable pub tree_entry_json : TreeEntry → Json
tree_entry_json e = obj (
    field "name" (str e.name) (
      field "obj_hash" (str e.obj_hash)
        (field "obj_type" (str e.obj_type) (sidecar_field e.sidecar_hash))))

unfoldable pub tree_entries_json : List TreeEntry → Items
tree_entries_json [] = nil
tree_entries_json (e ∷ es) = cons (tree_entry_json e) (tree_entries_json es)

unfoldable pub tree_json : Tree → Json
tree_json t = obj (
    field "type" (str "tree")
      (field "entries" (arr (tree_entries_json (sort_entries t.entries))) end))

unfoldable pub read_tree_entry : Json → Result TreeEntry
read_tree_entry j = do
  name ← item j "name" >>= as_str
  kind ← item j "obj_type" >>= as_str
  hash ← item j "obj_hash" >>= as_str
  sidecar ← Json.get j "sidecar_hash" >>= as_opt_str
  ok (record { name = name; obj_type = kind; obj_hash = hash; sidecar_hash = sidecar })

unfoldable pub read_tree_entries : Items → Result (List TreeEntry)
read_tree_entries nil = ok []
read_tree_entries (cons x xs) = do e ← read_tree_entry x; es ← read_tree_entries xs; ok (e ∷ es)

unfoldable pub read_tree : Json → Result Tree
read_tree j = do
  xs ← item j "entries" >>= as_items
  es ← read_tree_entries xs
  ok (record { entries = es })

-- Commits.

unfoldable pub strings_json : List String → Items
strings_json [] = nil
strings_json (s ∷ ss) = cons (str s) (strings_json ss)

unfoldable pub commit_json : Commit → Json
commit_json c = obj (
    field "type" (str "commit") (
      field "tree_hash" (str c.tree_hash) (
        field "parent_hashes" (arr (strings_json c.parent_hashes)) (
          field "author" (str c.author)
            (field "message" (str c.message) (field "timestamp" (num c.timestamp) end))))))

unfoldable pub read_strings : Items → Result (List String)
read_strings nil = ok []
read_strings (cons x xs) = do s ← as_str x; ss ← read_strings xs; ok (s ∷ ss)

unfoldable pub read_commit : Json → Result Commit
read_commit j = do
  tree ← item j "tree_hash" >>= as_str
  parents ← item j "parent_hashes" >>= as_items >>= read_strings
  author ← item j "author" >>= as_str
  message ← item j "message" >>= as_str
  timestamp ← item j "timestamp" >>= as_num
  ok (record {
    tree_hash = tree;
    parent_hashes = parents;
    author = author;
    message = message;
    timestamp = timestamp;
  })

-- Sidecars.

unfoldable pub sidecar_entry_json : SidecarEntry → Json
sidecar_entry_json e = obj (
    field "char_count" (num e.char_count) (
      field "field_count" (num e.field_count) (
        field "lang" (opt_str e.lang)
          (field "row_hash" (str e.row_hash) (field "token_estimate" (num e.token_estimate) end)))))

unfoldable pub sidecar_entries_json : List SidecarEntry → Items
sidecar_entries_json [] = nil
sidecar_entries_json (e ∷ es) = cons (sidecar_entry_json e) (sidecar_entries_json es)

unfoldable pub sidecar_json : Sidecar → Json
sidecar_json s = obj (
    field "type" (str "sidecar") (
      field "manifest_hash" (str s.manifest_hash)
        (field "entries" (arr (sidecar_entries_json s.entries)) end)))

unfoldable pub read_sidecar_entry : Json → Result SidecarEntry
read_sidecar_entry j = do
  hash ← item j "row_hash" >>= as_str
  chars ← item j "char_count" >>= as_num
  tokens ← item j "token_estimate" >>= as_num
  fields ← item j "field_count" >>= as_num
  lang ← Json.get j "lang" >>= as_opt_str
  ok (record {
    row_hash = hash;
    char_count = chars;
    token_estimate = tokens;
    field_count = fields;
    lang = lang;
  })

unfoldable pub read_sidecar_entries : Items → Result (List SidecarEntry)
read_sidecar_entries nil = ok []
read_sidecar_entries (cons x xs) = do
  e ← read_sidecar_entry x
  es ← read_sidecar_entries xs
  ok (e ∷ es)

unfoldable pub read_sidecar : Json → Result Sidecar
read_sidecar j = do
  xs ← item j "entries" >>= as_items
  es ← read_sidecar_entries xs
  manifest ← item j "manifest_hash" >>= as_str
  ok (record { manifest_hash = manifest; entries = es })

module _ (t : JsonText) where
  open t use {Text, dumps, loads}

  unfoldable pub serialize_manifest : Manifest → Text
  serialize_manifest m = dumps (sort_keys (manifest_json m))

  unfoldable pub deserialize_manifest : Text → Result Manifest
  deserialize_manifest x = loads x >>= read_manifest

  unfoldable pub serialize_tree : Tree → Text
  serialize_tree x = dumps (sort_keys (tree_json x))

  unfoldable pub deserialize_tree : Text → Result Tree
  deserialize_tree x = loads x >>= read_tree

  unfoldable pub serialize_commit : Commit → Text
  serialize_commit c = dumps (sort_keys (commit_json c))

  unfoldable pub deserialize_commit : Text → Result Commit
  deserialize_commit x = loads x >>= read_commit

  unfoldable pub serialize_sidecar : Sidecar → Text
  serialize_sidecar s = dumps (sort_keys (sidecar_json s))

  unfoldable pub deserialize_sidecar : Text → Result Sidecar
  deserialize_sidecar x = loads x >>= read_sidecar
