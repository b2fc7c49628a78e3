-- ===== src/Objects.antt =====
-- core/objects.py: the objects of the store. Hashes, names and types of objects are texts.
pub mod Json
pub mod Codec
pub mod RoundTrip
pub mod Blob
use dit.Prelude.{
  ℕ, ◌≡◌, refl, String, Bool, true, false, ◌&&◌, Option, none, some, if◌then◌else◌, List, [], ◌∷◌,
  ◌==◌, opt_eq, opt_eq→eq, opt_eq_self, arith, eq_iff,
}

pub record ManifestEntry : Type 0 where
  pub row_hash : String
  pub query_fingerprint : Option String

pub record Manifest : Type 0 where
  pub entries : List ManifestEntry

pub record TreeEntry : Type 0 where
  pub name : String
  pub obj_type : String
  pub obj_hash : String
  pub sidecar_hash : Option String

pub record Tree : Type 0 where
  pub entries : List TreeEntry

pub record SidecarEntry : Type 0 where
  pub row_hash : String
  pub char_count : ℕ
  pub token_estimate : ℕ
  pub field_count : ℕ
  pub lang : Option String

pub record Sidecar : Type 0 where
  pub manifest_hash : String
  pub entries : List SidecarEntry

pub record Commit : Type 0 where
  pub tree_hash : String
  pub parent_hashes : List String
  pub author : String
  pub message : String
  pub timestamp : ℕ

-- `{e.row_hash for e in entries}`
unfoldable pub row_hashes : List ManifestEntry → List String
row_hashes [] = []
row_hashes (e ∷ es) = e.row_hash ∷ row_hashes es

-- The `==` that `@dataclass` derives.
unfoldable pub entry_eq : ManifestEntry → ManifestEntry → Bool
entry_eq a b = a.row_hash == b.row_hash && opt_eq a.query_fingerprint b.query_fingerprint

unfoldable pub entries_eq : List ManifestEntry → List ManifestEntry → Bool
unfolding entry_eq
entries_eq [] [] = true
entries_eq (a ∷ as') (b ∷ bs) = entry_eq a b && entries_eq as' bs
entries_eq _ _ = false

entry_eq→eq : (a b : ManifestEntry) → entry_eq a b ≡ true → a ≡ b
unfolding entry_eq
entry_eq→eq a b h =
    ground (arith, eq_iff a.row_hash b.row_hash, opt_eq→eq a.query_fingerprint b.query_fingerprint)

pub entries_eq→eq : (xs ys : List ManifestEntry) → entries_eq xs ys ≡ true → xs ≡ ys
unfolding entries_eq
entries_eq→eq [] [] h = refl
entries_eq→eq [] (y ∷ ys) h = cc
entries_eq→eq (x ∷ xs) [] h = cc
entries_eq→eq (x ∷ xs) (y ∷ ys) h = ground (
  arith,
  eq_iff x.row_hash y.row_hash,
  opt_eq→eq x.query_fingerprint y.query_fingerprint,
  entries_eq→eq xs ys,
)

pub entries_eq_self : (xs : List ManifestEntry) → entries_eq xs xs ≡ true
unfolding entries_eq
entries_eq_self [] = refl
entries_eq_self (x ∷ xs) =
    ground
      (arith, eq_iff x.row_hash x.row_hash, opt_eq_self x.query_fingerprint, entries_eq_self xs)

-- `e.query_fingerprint` where it is true as a condition: `None` and the empty text are not.
unfoldable pub fingerprint : ManifestEntry → Option String
fingerprint e = elim e.query_fingerprint [ none ↦ none | some q ↦ if q == "" then none else some q ]
