-- ===== src/Server/Pulls/Resolve/Done.antt =====
-- What a request to resolve conflicts has passed when it gives a reply.
use dit.Prelude.{ℕ, ◌≡◌, String, List, [], ◌∷◌, ok}
use dit.Prelude.Dict
use dit.Prelude.Dict.{Dict}
use dit.Server.MergeCommit.{Storage, merged_entries}

module _ (storage : Storage) where
  -- A commit of the two heads, whose tree holds the files.
  abbrev pub IsCommitted : Dict String → String → String → String → String → ℕ → String → Type 0
  IsCommitted files target source author message now h =
      (s s' s'' : storage.State) × (lookup : Dict String) × (t : String) × (storage.write_tree s
          (record { entries = merged_entries lookup files })
        ≡ ok (t, s'))
      × (storage.write_commit s' (record {
        tree_hash = t;
        parent_hashes = target ∷ source ∷ [];
        author = author;
        message = message;
        timestamp = now;
      })
          ≡ ok (h, s''))
