-- ===== src/Blame/History.antt =====
-- `row_history` of core/blame.py: the commits that added or refreshed a row, the latest first. The
-- previews of the rows' texts are left out.
use dit.Prelude.{
  ℕ, zero, suc, String, Option, none, some, List, [], ◌∷◌, ◌++◌, ◌==◌, Result, ok, raise, has,
  index_error, get_elem?, if◌then◌else◌,
}
use dit.Objects.{ManifestEntry, Manifest, Commit, row_hashes}
use dit.Commits.{Loader}
use dit.Diff.{DiffResult, diff_manifests}
use dit.Blame.{first_parent, tried}

pub record Event : Type 0 where
  pub commit_hash : String
  pub author : String
  pub timestamp : ℕ
  pub event : String
  pub row_hash : String

abbrev pub event_at : String → Commit → String → String → Event
event_at c commit event h = record {
  commit_hash = c;
  author = commit.author;
  timestamp = commit.timestamp;
  event = event;
  row_hash = h;
}

-- The old hash of the first refresh to this one.
unfoldable pub refreshed_from : List (String × String × String) → String → Option String
refreshed_from [] h = none
refreshed_from ((o, n, q) ∷ ts) h = if n == h then some o else refreshed_from ts h

-- What follows a turn: the parent, its manifest, the hash that is tracked and the events.
abbrev pub Next : Type 0
Next = String → Manifest → String → List Event → Option (Result (List Event))

-- Where there is no parent with the file.
abbrev pub last_event : String → Commit → Manifest → String → List Event → List Event
last_event c commit m tracked events =
    if has (row_hashes m.entries) tracked
    then events ++ event_at c commit "added" tracked ∷ []
    else events

abbrev pub after_refresh :
    Next
    → String
    → Commit
    → String
    → List Event
    → String
    → Manifest
    → Option String
    → Option (Result (List Event))
after_refresh next c commit tracked events p parent_manifest none =
    next p parent_manifest tracked events
after_refresh next c commit tracked events p parent_manifest (some old) =
    next p parent_manifest old (events ++ event_at c commit "refresh" tracked ∷ [])

abbrev pub after_diff :
    Next
    → String
    → Commit
    → String
    → List Event
    → String
    → Manifest
    → Result DiffResult
    → Option (Result (List Event))
after_diff next c commit tracked events p parent_manifest (raise e) = some (raise e)
after_diff next c commit tracked events p parent_manifest (ok d) =
    let stop = some (ok (events ++ event_at c commit "added" tracked ∷ [])) in
    let go_on =
      after_refresh next c commit tracked events p parent_manifest
        (refreshed_from d.refreshed tracked) in
    if has (row_hashes d.added) tracked then stop else go_on

module _ (load : Loader) (manifest_of : String → Result Manifest) where
  abbrev pub after_parent :
      Next
      → String
      → Commit
      → Manifest
      → String
      → List Event
      → String
      → Result (Option Manifest)
      → Option (Result (List Event))
  after_parent next c commit m tracked events p (raise e) = some (raise e)
  after_parent next c commit m tracked events p (ok none) =
      some (ok (last_event c commit m tracked events))
  after_parent next c commit m tracked events p (ok (some parent_manifest)) =
      after_diff next c commit tracked events p parent_manifest (diff_manifests parent_manifest m)

  abbrev pub after_first :
      Next
      → String
      → Commit
      → Manifest
      → String
      → List Event
      → Option String
      → Option (Result (List Event))
  after_first next c commit m tracked events none = some (ok (last_event c commit m tracked events))
  after_first next c commit m tracked events (some p) =
      after_parent next c commit m tracked events p (tried (manifest_of p))

  abbrev pub after_commit :
      Next
      → String
      → Manifest
      → String
      → List Event
      → Result (Option Commit)
      → Option (Result (List Event))
  after_commit next c m tracked events (raise e) = some (raise e)
  after_commit next c m tracked events (ok none) = some (ok events)
  after_commit next c m tracked events (ok (some commit)) =
      after_first next c commit m tracked events (first_parent commit.parent_hashes)

  -- The `while` loop, on fuel: the outer `none` is out of fuel.
  unfoldable pub track : ℕ → String → Manifest → String → List Event → Option (Result (List Event))
  track zero c m tracked events = none
  track (suc fuel) c m tracked events =
      let turn = after_commit (track fuel) c m tracked events (load c) in
      if c == "" then some (ok events) else turn

  abbrev pub track_row : ℕ → String → Manifest → Option ManifestEntry → Option (Result (List Event))
  track_row fuel commit_hash target none = some (raise index_error)
  track_row fuel commit_hash target (some e) = track fuel commit_hash target e.row_hash []

  abbrev pub track_target : ℕ → String → ℕ → Result Manifest → Option (Result (List Event))
  track_target fuel commit_hash row_index (raise e) = some (raise e)
  track_target fuel commit_hash row_index (ok target) =
      track_row fuel commit_hash target (get_elem? target.entries row_index)

  -- The `events` of the reply; a negative index raises the same error as one that is too large.
  unfoldable pub row_history : ℕ → String → ℕ → Option (Result (List Event))
  row_history fuel commit_hash row_index =
      track_target fuel commit_hash row_index (manifest_of commit_hash)
