-- ===== src/Commits.antt =====
-- The commit graph, as core/walker.py and core/merge_base.py read it from a store.
pub mod IsAncestor
pub mod MergeBase
use dit.Prelude.{◌≡◌, String, true, Option, none, some, List, [], Result, ok, has}
use dit.Objects.{Commit}

-- `store.read("commits", h)`, and `deserialize_commit` where there is an object. Either may raise.
abbrev pub Loader : Type 0
Loader = String → Result (Option Commit)

-- The parents that a walk goes on to; a commit that is missing has none.
abbrev pub parents_of : Option Commit → List String
parents_of none = []
parents_of (some c) = c.parent_hashes

-- `Ancestor load a d`: the parent links of readable commits lead from d to a. Each commit is an
-- ancestor of its own.
pub data Ancestor (load : Loader) : String → String → Type 0 where
  here : (d : String) → Ancestor load d d
  next :
      {c p d : String} (k : Option Commit)
      → Ancestor load c d
      → load c ≡ ok k
      → has (parents_of k) p ≡ true
      → Ancestor load p d
