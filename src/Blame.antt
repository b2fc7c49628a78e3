-- ===== src/Blame.antt =====
-- `blame_file` of core/blame.py: the commit that brought each row of a file. The previews of the rows'
-- texts are left out.
pub mod Origins
pub mod Correct
pub mod History
pub mod Trail
use dit.Prelude.{
  ℕ, zero, suc, ◌+◌, ◌≡◌, String, Bool, true, false, not, ◌&&◌, ◌||◌, Option, none, some, List, [],
  ◌∷◌, ◌++◌, ◌==◌, Result, ok, raise, ◌>>=◌, has, filter, length, to_set, require, file_not_found,
  stop_iteration, Error, if◌then◌else◌,
}
use dit.Prelude.Dict
use dit.Prelude.Dict.{Dict}
use dit.Objects.{ManifestEntry, Manifest, Commit, row_hashes}
use dit.Commits.{Loader}
use dit.Trees.{Leaf, TreeLoader, flatten_tree}
use dit.Diff.{DiffResult, diff_manifests, is_empty}

pub record BlameEntry : Type 0 where
  pub row_index : ℕ
  pub row_hash : String
  pub commit_hash : String
  pub author : String
  pub timestamp : ℕ
  pub query_fingerprint : Option String

-- The variables of the loop that outlive a turn.
pub record Blame : Type 0 where
  pub unattributed : List String
  pub blame_map : Dict BlameEntry

-- `discard`
abbrev pub discard : String → List String → List String
discard h = filter (λ x. not (x == h))

-- `next(i for i, e in enumerate(entries) if e.row_hash == h)`
unfoldable pub index_of : List ManifestEntry → String → Result ℕ
index_of [] h = raise stop_iteration
index_of (e ∷ es) h =
    let rest = index_of es h in if e.row_hash == h then ok 0 else (do i ← rest; ok (suc i))

-- The rows that a diff reports as new, with the fingerprints that are noted: those added first.
unfoldable pub added_rows : List ManifestEntry → List (String × Option String)
added_rows [] = []
added_rows (e ∷ es) = (e.row_hash, e.query_fingerprint) ∷ added_rows es

unfoldable pub refreshed_rows : List (String × String × String) → List (String × Option String)
refreshed_rows [] = []
refreshed_rows ((o, n, q) ∷ ts) = (n, some q) ∷ refreshed_rows ts

abbrev pub new_rows : DiffResult → List (String × Option String)
new_rows d = added_rows d.added ++ refreshed_rows d.refreshed

abbrev pub blamed : ℕ → String → Option String → String → Commit → BlameEntry
blamed i h q current_hash commit = record {
  row_index = i;
  row_hash = h;
  commit_hash = current_hash;
  author = commit.author;
  timestamp = commit.timestamp;
  query_fingerprint = q;
}

unfoldable pub first_parent : List String → Option String
first_parent [] = none
first_parent (p ∷ ps) = some p

module _ (target : Manifest) (current_hash : String) (commit : Commit) where
  -- The body of the loops over a diff.
  unfoldable pub attribute : Blame → String × Option String → Result Blame
  attribute s (h, q) =
      if has s.unattributed h
      then (do
        i ← index_of target.entries h
        ok (record {
          unattributed = discard h s.unattributed;
          blame_map = Dict.put s.blame_map h (blamed i h q current_hash commit);
        }))
      else ok s

  unfoldable pub attribute_all : Blame → List (String × Option String) → Result Blame
  attribute_all s [] = ok s
  attribute_all s (x ∷ xs) = do s' ← attribute s x; attribute_all s' xs

  -- The loop where there is no parent, or none with the file: `i` is the index of the first of the
  -- entries.
  unfoldable pub attribute_rest :
      List String → ℕ → List ManifestEntry → Dict BlameEntry → Dict BlameEntry
  attribute_rest unattributed i [] d = d
  attribute_rest unattributed i (e ∷ es) d =
      let put =
        attribute_rest unattributed (suc i) es
          (Dict.put d e.row_hash (blamed i e.row_hash e.query_fingerprint current_hash commit)) in
      let skip = attribute_rest unattributed (suc i) es d in
      if has unattributed e.row_hash then put else skip

  abbrev pub settle : Blame → Blame
  settle s = record {
    unattributed = [];
    blame_map = attribute_rest s.unattributed 0 target.entries s.blame_map;
  }

-- `_try_get_manifest`, of a call that may raise: only a `FileNotFoundError` is caught.
abbrev pub tried : {A : Type 0} → Result A → Result (Option A)
tried (ok a) = ok (some a)
tried (raise file_not_found) = ok none
tried (raise e) = raise e

module _ (load : Loader) (manifest_of : String → Result Manifest) (target : Manifest) where
  -- A turn, with `next` for the turns after it.
  abbrev pub with_diff :
      (String → Manifest → Blame → Option (Result Blame))
      → String
      → Manifest
      → Result Blame
      → Option (Result Blame)
  with_diff next p parent_manifest (raise e) = some (raise e)
  with_diff next p parent_manifest (ok s) = next p parent_manifest s

  abbrev pub with_parent :
      (String → Manifest → Blame → Option (Result Blame))
      → String
      → Commit
      → Manifest
      → Blame
      → String
      → Result (Option Manifest)
      → Option (Result Blame)
  with_parent next c commit m s p (raise e) = some (raise e)
  with_parent next c commit m s p (ok none) = some (ok (settle target c commit s))
  with_parent next c commit m s p (ok (some parent_manifest)) =
      with_diff next p parent_manifest
        (diff_manifests parent_manifest m >>= λ d. attribute_all target c commit s (new_rows d))

  abbrev pub with_first :
      (String → Manifest → Blame → Option (Result Blame))
      → String
      → Commit
      → Manifest
      → Blame
      → Option String
      → Option (Result Blame)
  with_first next c commit m s none = some (ok (settle target c commit s))
  with_first next c commit m s (some p) = with_parent next c commit m s p (tried (manifest_of p))

  abbrev pub with_commit :
      (String → Manifest → Blame → Option (Result Blame))
      → String
      → Manifest
      → Blame
      → Result (Option Commit)
      → Option (Result Blame)
  with_commit next c m s (raise e) = some (raise e)
  with_commit next c m s (ok none) = some (ok s)
  with_commit next c m s (ok (some commit)) =
      with_first next c commit m s (first_parent commit.parent_hashes)

  -- The `while` loop, on fuel: the outer `none` is out of fuel.
  unfoldable pub walk : ℕ → String → Manifest → Blame → Option (Result Blame)
  walk zero c m s = none
  walk (suc fuel) c m s =
      let turn = with_commit (walk fuel) c m s (load c) in
      if c == "" || is_empty s.unattributed then some (ok s) else turn

  -- The loop from the commit of the file on.
  unfoldable pub blame_map_of : ℕ → String → Option (Result Blame)
  blame_map_of fuel commit_hash =
      walk fuel commit_hash target
        (record { unattributed = to_set (row_hashes target.entries); blame_map = [] })

-- A row of the reply, without its preview.
pub record Line : Type 0 where
  pub row_index : ℕ
  pub row_hash : String
  pub commit_hash : String
  pub author : String
  pub timestamp : ℕ
  pub query_fingerprint : Option String

abbrev pub line : String → ℕ → ManifestEntry → Option BlameEntry → Line
line commit_hash i e none = record {
  row_index = i;
  row_hash = e.row_hash;
  commit_hash = commit_hash;
  author = "unknown";
  timestamp = 0;
  query_fingerprint = e.query_fingerprint;
}
line commit_hash i e (some b) = record {
  row_index = i;
  row_hash = e.row_hash;
  commit_hash = b.commit_hash;
  author = b.author;
  timestamp = b.timestamp;
  query_fingerprint = e.query_fingerprint;
}

unfoldable pub lines : String → Dict BlameEntry → ℕ → List ManifestEntry → List Line
lines commit_hash d i [] = []
lines commit_hash d i (e ∷ es) =
    line commit_hash i e (Dict.get d e.row_hash) ∷ lines commit_hash d (suc i) es

abbrev pub with_lines : String → Manifest → Option (Result Blame) → Option (Result (List Line))
with_lines commit_hash target none = none
with_lines commit_hash target (some (raise e)) = some (raise e)
with_lines commit_hash target (some (ok s)) =
    some (ok (lines commit_hash s.blame_map 0 target.entries))

abbrev pub with_target :
    Loader → (String → Result Manifest) → ℕ → String → Result Manifest → Option (Result (List Line))
with_target load manifest_of fuel commit_hash (raise e) = some (raise e)
with_target load manifest_of fuel commit_hash (ok target) =
    with_lines commit_hash target (blame_map_of load manifest_of target fuel commit_hash)

-- The `entries` of the reply.
unfoldable pub blame_file :
    Loader → (String → Result Manifest) → ℕ → String → Option (Result (List Line))
blame_file load manifest_of fuel commit_hash =
    with_target load manifest_of fuel commit_hash (manifest_of commit_hash)

-- What `_get_manifest_for_file` does with the flat map of a commit.
abbrev pub manifest_leaf : (String → Result (Option Manifest)) → Option Leaf → Result Manifest
manifest_leaf read none = raise file_not_found
manifest_leaf read (some (kind, h, sidecar)) =
    if kind == "manifest" then (do m ← read h; require file_not_found m) else raise file_not_found

-- `path` is the file's, without slashes at its start.
unfoldable pub get_manifest_for_file :
    Loader
    → TreeLoader
    → (String → Result (Option Manifest))
    → ℕ
    → String
    → String
    → Result Manifest
get_manifest_for_file load load_tree read depth path commit_hash = do
  found ← load commit_hash
  commit ← require file_not_found found
  flat ← flatten_tree load_tree depth commit.tree_hash ""
  manifest_leaf read (Dict.get flat path)
