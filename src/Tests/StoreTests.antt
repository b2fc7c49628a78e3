-- ===== src/Tests/StoreTests.antt =====
-- The store with two objects, packed as they are, and digests that tell them apart.
use dit.Prelude.{◌≡◌, ◌≢◌, ◌⊎◌, refl, String, Bool, true, false, some, [], ◌∷◌, ok}
use dit.Prelude.Dict
use dit.Store.{StoreLibs, ObjectStore, is_object_name, matches_hex, read, write, write_batch}
use dit.Store.ReadWrite.{IsLawful, NoCollision, read-write}
use dit.Store.Batch.{write_each, write_batch-write_each}

abbrev digest_of : Bool → String
digest_of true = "4bf5122f344554c53bde2ebb8cd2b7e3d1600ad631c385a5d7cce23c7785459a"
digest_of false = "6e340b9cffb37a989ca544e6bb780a2c78901d3fb33738768511a30617afa01d"

abbrev libs : StoreLibs
libs = record {
  Data = Bool;
  File = Bool;
  sha256 = digest_of;
  compress = λ x. x;
  decompress = λ f. ok f;
}

abbrev empty_store : ObjectStore libs
empty_store = record { files = λ t. [] }

digests-IsObjectName : (x : Bool) → is_object_name (digest_of x) ≡ true
unfolding is_object_name matches_hex
digests-IsObjectName true = refl
digests-IsObjectName false = refl

libs-IsLawful : IsLawful libs
libs-IsLawful = record { digest = digests-IsObjectName; unpack = λ x. refl }

none_stored : NoCollision libs empty_store "manifests" true
unfolding Dict.get
none_stored f there = cc

read-write_example :
    (s' : ObjectStore libs) × (write libs empty_store "manifests" true ≡ ok (digest_of true, s'))
    × (read libs s' "manifests" (digest_of true) ≡ ok (some true))
    × ((t h : String)
        → (t ≢ "manifests") ⊎ (h ≢ digest_of true)
        → read libs s' t h ≡ read libs empty_store t h)
read-write_example = read-write libs empty_store "manifests" true libs-IsLawful none_stored

write_batch-write_each_example :
    write_batch libs empty_store "trees" (true ∷ false ∷ true ∷ [])
    ≡ write_each libs empty_store "trees" (true ∷ false ∷ true ∷ [])
write_batch-write_each_example =
    write_batch-write_each libs digests-IsObjectName empty_store "trees" (true ∷ false ∷ true ∷ [])
