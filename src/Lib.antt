-- ===== src/Lib.antt =====
-- dit: row-level version control for JSONL data, the Python package under `src/dit`.
--
-- A file of JSON rows is kept as a manifest, a list of row hashes, each with the fingerprint of its
-- question where it has one. Trees name manifests and other files (blobs), commits name a tree and
-- their parents, and all of these are objects of a store under their SHA-256. Diffs, merges, walks
-- over history and garbage collection read these objects. The parts and their files:
--   * Prelude: tests on texts and options, Python's exceptions as results, sets and dictionaries as lists.
--     A `set` is the list of its elements; where the code iterates over a set, the order is that of
--     `to_set`. A `dict` keeps the order of insertion.
--   * Objects: the data classes of `src/dit/core/objects.py`. Objects/Codec has its serialisers over
--     the JSON values of Objects/Json, and Objects/Blob the envelope of blobs.
--   * Store: `ObjectStore` of `src/dit/core/store.py`.
--   * Trees: `flatten_tree` of `src/dit/core/tree_walker.py`.
--   * Diff: `diff_manifests` of `src/dit/core/diff.py`.
--   * Commits: Commits/IsAncestor is `is_ancestor` of `src/dit/core/walker.py`, Commits/MergeBase is
--     `find_merge_base` of `src/dit/core/merge_base.py`.
--   * Merge: `src/dit/core/merge.py`. Merge/Rows is `merge_manifests`, Merge/Files the loop of
--     `three_way_merge` over paths, Merge/Commits the function from the hashes of the commits on.
--   * Walker: `walk_commit_objects` of `src/dit/core/walker.py`. Walker/Spec reads the links and
--     the named hashes off the objects, apart from the code of the walk.
--   * Gc: `src/dit/core/gc.py`, mark and sweep.
--   * Index: `StagingIndex` of `src/dit/core/index.py`.
--   * Blame: `src/dit/core/blame.py`, `blame_file` and, in Blame/History, `row_history`, over the manifests
--     of one file by commit.
--   * Server: the requests of `src/dit/server` on one repository, each an action on the rows of its
--     tables (Server/Tables) and on its objects (Server/MergeCommit). Server/Access is `auth.py`, and
--     Server/Pulls, Merges, RefRoutes, Reviews and Protection are the files of `routes` of these names
--     (`pulls.py`, `merge.py`, `refs.py`, `reviews.py`, `branch_protection.py`). Server/Requests serves
--     requests one after another; Server/Requests/May is the change that each may make to the rows, and
--     Server/Changes what all of them keep.
--   * Tests: runs of the definitions, and the theorems at concrete inputs.
--
-- Functions that raise give a `Result`; the exception's class is kept, its message is not. A loop
-- `while` runs on fuel, and `none` is out of fuel: for each there is a theorem that fuel above a
-- measure (what waits, plus the links of what is not yet visited in a finite list of objects, or for a
-- blame the number of first parents) is enough.
-- The recursion of `flatten_tree` runs on what is left of Python's recursion limit, and raises
-- `RecursionError` where nothing is left.
--
-- Parameters: SHA-256 and zstd (`StoreLibs`), the text of a JSON value (`JsonText`), the reads of the
-- store with their deserialisers (`Loader`, `TreeLoader`, `ManifestStore`, `Objects`), and the clock.
-- In the server, the match of a branch with a pattern (`fnmatch`) is a parameter, and so is what other
-- requests commit while one waits for a thread; a request is otherwise taken as not interrupted. A
-- session's writes are pending until it commits, and are gone where the request ends before. The
-- repository that a request names is taken to exist; webhooks, times and row keys are left out,
-- and so are rules that require a negative number of approvals, which the table and the requests allow.
-- Python does not check the types of JSON fields; a field of another type than the data class
-- declares raises in the model. Not modelled: failures of the disk and other processes in the store,
-- the paths of its files below a type, and the messages of exceptions. Of the rest of the package,
-- the command line (`src/dit/cli`), the server's other routes, remotes, search, statistics, export,
-- validation and the working copy are not modelled.
pub mod Prelude
pub mod Objects
pub mod Diff
pub mod Commits
pub mod Merge
pub mod Store
pub mod Trees
pub mod Walker
pub mod Gc
pub mod Index
pub mod Blame
pub mod Server
mod Tests
