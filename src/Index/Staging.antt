-- ===== src/Index/Staging.antt =====
-- What the index holds after an operation.
use dit.Prelude.{
  ◌≡◌, refl, sym, ◌∙◌, ap, String, Bool, true, false, Option, none, some, [], ◌∷◌, ◌==◌,
  if◌then◌else◌, arith, eq_iff,
}
use dit.Prelude.Dict
use dit.Prelude.Dict.{Dict, get-put, get-pop}
use dit.Index.{
  Staged, Raw, typed, IndexFile, upgrade, upgrade_all, load, insert_key, sort_data, write, stage,
  stage_delete, unstage, typed_of, entries_typed,
}

get-insert_key {ℓ} :
    {V : Type ℓ} (k x : String) (v : V) (d : Dict V)
    → Dict.get (insert_key k v d) x ≡ (if k == x then some v else Dict.get d x)
unfolding insert_key Dict.get
get-insert_key k x v [] = refl
get-insert_key k x v ((j, w) ∷ d) =
    ground (arith, get-insert_key k x v d, eq_iff k j, eq_iff k x, eq_iff j x, eq_iff k k)

abbrev pair_of : Option Staged → Option (String × String)
pair_of none = none
pair_of (some v) = some (v.kind, v.hash)

get-typed_of : (d : Dict Staged) (x : String) → Dict.get (typed_of d) x ≡ pair_of (Dict.get d x)
unfolding typed_of Dict.get
get-typed_of [] x = refl
get-typed_of ((k, v) ∷ d) x = ground (arith, get-typed_of d x)

abbrev upgraded : Option Raw → Option Staged
upgraded none = none
upgraded (some v) = some (upgrade v)

get-upgrade_all :
    (raw : Dict Raw) (x : String) → Dict.get (upgrade_all raw) x ≡ upgraded (Dict.get raw x)
unfolding upgrade_all Dict.get
get-upgrade_all [] x = refl
get-upgrade_all ((k, v) ∷ raw) x = ground (arith, get-upgrade_all raw x)

get-sort_data : (d : Dict Staged) (x : String) → upgraded (Dict.get (sort_data d) x) ≡ Dict.get d x
unfolding sort_data Dict.get
get-sort_data [] x = refl
get-sort_data ((k, v) ∷ d) x =
    ground (arith, get-sort_data d x, get-insert_key k x (typed v) (sort_data d))

-- What was written is loaded again, path by path.
get-load : (d : Dict Staged) (x : String) → Dict.get (load (write d)) x ≡ Dict.get d x
get-load d x = get-upgrade_all (sort_data d) x ∙ get-sort_data d x

-- The entry of a path: its type and hash.
abbrev pub staged_at : IndexFile → String → Option (String × String)
staged_at file path = Dict.get (entries_typed file) path

staged_at-load :
    (file : IndexFile) (x : String) → staged_at file x ≡ pair_of (Dict.get (load file) x)
unfolding entries_typed
staged_at-load file x = get-typed_of (load file) x

pair_of_if :
    (u : Bool) (a c : Option Staged) (b : Option (String × String))
    → b ≡ pair_of c
    → pair_of (if u then a else c) ≡ (if u then pair_of a else b)
pair_of_if true a c b e = refl
pair_of_if false a c b e = sym e

-- Whatever the format of the file, also where there is none: staging a path sets its entry, staging a
-- deletion sets the type "delete" and an empty hash, unstaging a path removes its entry, and none
-- of these changes the entry of another path.
pub entries_typed-stage :
    (file : IndexFile) (p h t x : String)
    → (staged_at (stage file p h t) x ≡ (if p == x then some (t, h) else staged_at file x))
      × (staged_at (stage_delete file p) x
          ≡ (if p == x then some ("delete", "") else staged_at file x))
      × (staged_at (unstage file p) x ≡ (if p == x then none else staged_at file x))
unfolding stage stage_delete unstage
entries_typed-stage file p h t x =
    let before = staged_at-load file x in
    let added : Dict Staged = Dict.put (load file) p (record { hash = h; kind = t }) in
    let deleted : Dict Staged = Dict.put (load file) p (record { hash = ""; kind = "delete" }) in
    let removed : Dict Staged = Dict.pop (load file) p in
    (
      staged_at-load (write added) x
          ∙ ap pair_of (get-load added x ∙ get-put (load file) p x _)
          ∙ pair_of_if (p == x) _ _ _ before,
      staged_at-load (write deleted) x
          ∙ ap pair_of (get-load deleted x ∙ get-put (load file) p x _)
          ∙ pair_of_if (p == x) _ _ _ before,
      staged_at-load (write removed) x
          ∙ ap pair_of (get-load removed x ∙ get-pop (load file) p x)
          ∙ pair_of_if (p == x) _ _ _ before,
    )
