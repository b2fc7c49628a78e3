-- ===== src/Trees.antt =====
-- core/tree_walker.py: nested trees as flat maps from paths.
pub mod Paths
use Prim.Native.String.{◌++◌ as str_append}
use dit.Prelude.{
  ℕ, zero, suc, ◌≡◌, String, Option, none, some, List, [], ◌∷◌, ◌==◌, Result, ok, raise, ◌>>=◌,
  recursion_error, if◌then◌else◌,
}
use dit.Prelude.Dict
use dit.Prelude.Dict.{Dict}
use dit.Objects.{TreeEntry, Tree}

-- (obj_type, obj_hash, sidecar_hash)
abbrev pub Leaf : Type 0
Leaf = String × String × Option String

-- `store.read("trees", h)`, and `deserialize_tree` where there is an object.
abbrev pub TreeLoader : Type 0
TreeLoader = String → Result (Option Tree)

-- `d.update(e)`
unfoldable pub update {ℓ} : {V : Type ℓ} → Dict V → Dict V → Dict V
update d [] = d
update d ((k, v) ∷ e) = update (Dict.put d k v) e

unfoldable pub full_path : String → String → String
full_path prefix name = if prefix == "" then name else str_append prefix (str_append "/" name)

-- The loop over the entries of a tree; `descend` is the recursive call.
module _ (descend : String → String → Result (Dict Leaf)) (prefix : String) where
  unfoldable pub flatten_entry : Dict Leaf → TreeEntry → Result (Dict Leaf)
  flatten_entry result e =
      if e.obj_type == "tree"
      then (do sub ← descend e.obj_hash (full_path prefix e.name); ok (update result sub))
      else ok (Dict.put result (full_path prefix e.name) (e.obj_type, e.obj_hash, e.sidecar_hash))

  unfoldable pub flatten_entries : Dict Leaf → List TreeEntry → Result (Dict Leaf)
  flatten_entries result [] = ok result
  flatten_entries result (e ∷ es) = do result' ← flatten_entry result e; flatten_entries result' es

abbrev pub entries_of : Option Tree → List TreeEntry
entries_of none = []
entries_of (some t) = t.entries

-- `depth` is what is left of Python's recursion limit.
unfoldable pub flatten_tree : TreeLoader → ℕ → String → String → Result (Dict Leaf)
flatten_tree load zero tree_hash prefix = raise recursion_error
flatten_tree load (suc depth) tree_hash prefix = do
  tree ← load tree_hash
  flatten_entries (flatten_tree load depth) prefix [] (entries_of tree)
