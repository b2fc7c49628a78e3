-- ===== src/Trees/Paths.antt =====
-- The paths of a flat map: each is listed once.
use dit.Prelude.{
  ◌≡◌, Bool, String, ℕ, zero, suc, List, [], ◌∷◌, ◌==◌, Result, ok, first_ok, ◌>>=◌, true, false,
  if◌then◌else◌, Distinct,
}
use mathlib.Core.Path.{subst}
use dit.Prelude.Dict
use dit.Prelude.Dict.{Dict, put-Distinct}
use dit.Objects.{TreeEntry}
use dit.Trees.{
  Leaf, TreeLoader, update, full_path, flatten_entry, flatten_entries, entries_of, flatten_tree,
}

update-Distinct :
    {V : Type 0} (d e : Dict V) → Distinct (Dict.keys d) → Distinct (Dict.keys (update d e))
unfolding update
update-Distinct d [] h = h
update-Distinct d ((k, v) ∷ e) h = update-Distinct (Dict.put d k v) e (put-Distinct d k v h)

-- What one entry adds keeps the paths different, whichever its type.
step-Distinct :
    (is_tree : Bool) (d d' : Dict Leaf) (call : Result (Dict Leaf)) (path : String) (leaf : Leaf)
    → (if is_tree then (call >>= λ sub. ok (update d sub)) else ok (Dict.put d path leaf)) ≡ ok d'
    → Distinct (Dict.keys d)
    → Distinct (Dict.keys d')
step-Distinct true d d' call path leaf run h =
    let (sub, _, made) = first_ok call (λ sub. ok (update d sub)) run in
    let made' : update d sub ≡ d' = cc in
    subst (λ x. Distinct (Dict.keys x)) made' (update-Distinct d sub h)
step-Distinct false d d' call path leaf run h =
    let made : Dict.put d path leaf ≡ d' = cc in
    subst (λ x. Distinct (Dict.keys x)) made (put-Distinct d path leaf h)

flatten_entries-Distinct :
    (descend : String → String → Result (Dict Leaf)) (prefix : String) (d d' : Dict Leaf)
    (es : List TreeEntry)
    → flatten_entries descend prefix d es ≡ ok d'
    → Distinct (Dict.keys d)
    → Distinct (Dict.keys d')
unfolding flatten_entries flatten_entry
flatten_entries-Distinct descend prefix d d' [] run h =
    let same : d ≡ d' = cc in subst (λ x. Distinct (Dict.keys x)) same h
flatten_entries-Distinct descend prefix d d' (e ∷ es) run h =
    let (mid, made, rest) =
      first_ok (flatten_entry descend prefix d e) (λ m. flatten_entries descend prefix m es) run in
    flatten_entries-Distinct descend prefix mid d' es rest (
      step-Distinct (e.obj_type == "tree") d mid (descend e.obj_hash (full_path prefix e.name)) _ _
        made h)

-- `flatten_tree` lists no path twice.
pub flatten_tree-Distinct :
    (load : TreeLoader) (depth : ℕ) (tree_hash prefix : String) (d : Dict Leaf)
    → flatten_tree load depth tree_hash prefix ≡ ok d
    → Distinct (Dict.keys d)
unfolding flatten_tree
flatten_tree-Distinct load zero tree_hash prefix d run = cc
flatten_tree-Distinct load (suc depth) tree_hash prefix d run =
    let (tree, _, rest) =
      first_ok (load tree_hash)
        (λ x. flatten_entries (flatten_tree load depth) prefix [] (entries_of x)) run in
    flatten_entries-Distinct (flatten_tree load depth) prefix [] d (entries_of tree) rest
      (unfold Dict.keys in tt)
