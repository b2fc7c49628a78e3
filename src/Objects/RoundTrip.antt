-- ===== src/Objects/RoundTrip.antt =====
-- What is written as an object reads back.
pub mod Sorted
use mathlib.Core.List.{Perm}
use dit.Prelude.{◌≡◌, refl, none, some, List, [], ◌∷◌, ok, String, Option}
use dit.Objects.{ManifestEntry, Manifest, TreeEntry, Tree, SidecarEntry, Sidecar, Commit}
use dit.Objects.RoundTrip.Sorted.{IsOrdered, sort_entries-IsOrdered, sort_entries-perm}
use dit.Objects.Json
use dit.Objects.Json.{
  sort_keys, sort_items, sort_fields, insert_field, find_field, item, as_str, as_opt_str, as_num,
  as_items, str_le, JsonText, ReadsBack,
}
use dit.Objects.Codec.{
  opt_str, entry_json, entries_json, manifest_json, read_entry, read_entries, read_manifest,
  insert_entry, sort_entries, tree_entry_json, tree_entries_json, tree_json, read_tree_entry,
  read_tree_entries, read_tree, strings_json, commit_json, read_strings, read_commit,
  sidecar_entry_json, sidecar_entries_json, sidecar_json, read_sidecar_entry, read_sidecar_entries,
  read_sidecar, serialize_manifest, deserialize_manifest, serialize_tree, deserialize_tree,
  serialize_commit, deserialize_commit, serialize_sidecar, deserialize_sidecar,
}

read_entry-sort_keys :
    (h : String) (q : Option String)
    → read_entry (sort_keys (entry_json (record { row_hash = h; query_fingerprint = q })))
      ≡ ok (record { row_hash = h; query_fingerprint = q })
unfolding read_entry sort_keys insert_field entry_json item Json.get as_str as_opt_str
read_entry-sort_keys h none = refl
read_entry-sort_keys h (some q) = refl

read_entries-sort_items :
    (es : List ManifestEntry) → read_entries (sort_items (entries_json es)) ≡ ok es
unfolding read_entries sort_items entries_json
read_entries-sort_items [] = refl
read_entries-sort_items (e ∷ es) =
    rw (read_entry-sort_keys e.row_hash e.query_fingerprint) (rw (read_entries-sort_items es))

read_manifest-sort_keys : (m : Manifest) → read_manifest (sort_keys (manifest_json m)) ≡ ok m
unfolding read_manifest sort_keys insert_field manifest_json item as_items
read_manifest-sort_keys m = rw (read_entries-sort_items m.entries)

read_tree_entry-sort_keys :
    (n k h : String) (s : Option String)
    → read_tree_entry (
        sort_keys
          (tree_entry_json (record { name = n; obj_type = k; obj_hash = h; sidecar_hash = s })))
      ≡ ok (record { name = n; obj_type = k; obj_hash = h; sidecar_hash = s })
unfolding read_tree_entry sort_keys insert_field tree_entry_json item Json.get as_str as_opt_str
read_tree_entry-sort_keys n k h none = refl
read_tree_entry-sort_keys n k h (some s) = refl

read_tree_entries-sort_items :
    (es : List TreeEntry) → read_tree_entries (sort_items (tree_entries_json es)) ≡ ok es
unfolding read_tree_entries sort_items tree_entries_json
read_tree_entries-sort_items [] = refl
read_tree_entries-sort_items (e ∷ es) =
    rw (read_tree_entry-sort_keys e.name e.obj_type e.obj_hash e.sidecar_hash)
      (rw (read_tree_entries-sort_items es))

read_tree-sort_keys :
    (t : Tree)
    → read_tree (sort_keys (tree_json t)) ≡ ok (record { entries = sort_entries t.entries })
unfolding read_tree sort_keys insert_field tree_json item as_items
read_tree-sort_keys t = rw (read_tree_entries-sort_items (sort_entries t.entries))

read_strings-sort_items : (ss : List String) → read_strings (sort_items (strings_json ss)) ≡ ok ss
unfolding read_strings sort_items strings_json as_str
read_strings-sort_items [] = refl
read_strings-sort_items (s ∷ ss) = rw (read_strings-sort_items ss)

read_commit-sort_keys : (c : Commit) → read_commit (sort_keys (commit_json c)) ≡ ok c
unfolding read_commit sort_keys insert_field commit_json item as_items as_str as_num
read_commit-sort_keys c = rw (read_strings-sort_items c.parent_hashes)

as_opt_str-sort_keys : (o : Option String) → as_opt_str (sort_keys (opt_str o)) ≡ ok o
unfolding as_opt_str sort_keys
as_opt_str-sort_keys none = refl
as_opt_str-sort_keys (some s) = refl

read_sidecar_entry-sort_keys :
    (e : SidecarEntry) → read_sidecar_entry (sort_keys (sidecar_entry_json e)) ≡ ok e
unfolding read_sidecar_entry sort_keys insert_field sidecar_entry_json item Json.get as_str as_num
read_sidecar_entry-sort_keys e = rw (as_opt_str-sort_keys e.lang)

read_sidecar_entries-sort_items :
    (es : List SidecarEntry) → read_sidecar_entries (sort_items (sidecar_entries_json es)) ≡ ok es
unfolding read_sidecar_entries sort_items sidecar_entries_json
read_sidecar_entries-sort_items [] = refl
read_sidecar_entries-sort_items (e ∷ es) =
    rw (read_sidecar_entry-sort_keys e) (rw (read_sidecar_entries-sort_items es))

read_sidecar-sort_keys : (s : Sidecar) → read_sidecar (sort_keys (sidecar_json s)) ≡ ok s
unfolding read_sidecar sort_keys insert_field sidecar_json item as_items as_str
read_sidecar-sort_keys s = rw (read_sidecar_entries-sort_items s.entries)

-- Where the text of its JSON value reads back, a serialised manifest deserialises to itself: order,
-- repeated rows and absent fingerprints included.
pub deserialize_manifest-serialize_manifest :
    (t : JsonText) (m : Manifest)
    → ReadsBack t (sort_keys (manifest_json m))
    → deserialize_manifest t (serialize_manifest t m) ≡ ok m
unfolding serialize_manifest deserialize_manifest
deserialize_manifest-serialize_manifest t m h = rw h (read_manifest-sort_keys m)

-- Where the text of its JSON value reads back, a serialised tree deserialises to a tree with the same
-- entries, each as often, in an order where no name is followed by one that is smaller by code points.
pub deserialize_tree-serialize_tree :
    (t : JsonText) (x : Tree)
    → ReadsBack t (sort_keys (tree_json x))
    → (es : List TreeEntry) × (deserialize_tree t (serialize_tree t x)
        ≡ ok (record { entries = es }))
      × (es ≡ sort_entries x.entries)
      × IsOrdered es
      × Perm es x.entries
unfolding serialize_tree deserialize_tree
deserialize_tree-serialize_tree t x h = (
  sort_entries x.entries,
  rw h (read_tree-sort_keys x),
  refl,
  sort_entries-IsOrdered x.entries,
  sort_entries-perm x.entries,
)

-- Where the text of its JSON value reads back, a serialised commit deserialises to itself.
pub deserialize_commit-serialize_commit :
    (t : JsonText) (c : Commit)
    → ReadsBack t (sort_keys (commit_json c))
    → deserialize_commit t (serialize_commit t c) ≡ ok c
unfolding serialize_commit deserialize_commit
deserialize_commit-serialize_commit t c h = rw h (read_commit-sort_keys c)

-- Where the text of its JSON value reads back, a serialised sidecar deserialises to itself.
pub deserialize_sidecar-serialize_sidecar :
    (t : JsonText) (s : Sidecar)
    → ReadsBack t (sort_keys (sidecar_json s))
    → deserialize_sidecar t (serialize_sidecar t s) ≡ ok s
unfolding serialize_sidecar deserialize_sidecar
deserialize_sidecar-serialize_sidecar t s h = rw h (read_sidecar-sort_keys s)
