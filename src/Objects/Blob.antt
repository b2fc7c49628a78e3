-- ===== src/Objects/Blob.antt =====
-- The envelope of blobs in core/objects.py: `struct.pack(">Q", n)` and the bytes, a byte being a
-- number.
use native.Mathlib.Nat.{pow-suc}
use dit.Prelude.{
  ℕ, zero, suc, ◌+◌, ◌*◌, ◌/◌, ◌%◌, ◌^◌, ◌<◌, ◌≡◌, refl, ap, ◌∙◌, List, [], ◌∷◌, ◌++◌, Result, ok,
  raise, value_error, struct_error, ltb, nat_eq, if◌then◌else◌, length, length-append, arith,
}

abbrev pub Bytes : Type 0
Bytes = List ℕ

-- The last `k` bytes of a number, the highest first.
unfoldable pub big_endian : ℕ → ℕ → Bytes
big_endian zero n = []
big_endian (suc k) n = big_endian k (n / 256) ++ (n % 256) ∷ []

unfoldable pub from_big_endian : ℕ → Bytes → ℕ
from_big_endian acc [] = acc
from_big_endian acc (b ∷ bs) = from_big_endian (acc * 256 + b) bs

unfoldable pub take : ℕ → Bytes → Bytes
take zero bs = []
take (suc k) [] = []
take (suc k) (b ∷ bs) = b ∷ take k bs

unfoldable pub drop : ℕ → Bytes → Bytes
drop zero bs = bs
drop (suc k) [] = []
drop (suc k) (b ∷ bs) = drop k bs

unfoldable pub serialize_blob : Bytes → Result Bytes
serialize_blob content =
    if ltb (length content) (2 ^ 64)
    then ok (big_endian 8 (length content) ++ content)
    else raise struct_error

unfoldable pub deserialize_blob : Bytes → Result Bytes
deserialize_blob bytes =
    if ltb (length bytes) 8
    then raise value_error
    else let payload = drop 8 bytes in
      if nat_eq (length payload) (from_big_endian 0 (take 8 bytes))
      then ok payload
      else raise value_error

length-big_endian : (k n : ℕ) → length (big_endian k n) ≡ k
unfolding big_endian
length-big_endian zero n = refl
length-big_endian (suc k) n =
    omega (
      arith,
      length-append (big_endian k (n / 256)) ((n % 256) ∷ []),
      length-big_endian k (n / 256),
    )

from_big_endian-snoc :
    (acc : ℕ) (bs : Bytes) (b : ℕ)
    → from_big_endian acc (bs ++ b ∷ []) ≡ from_big_endian acc bs * 256 + b
unfolding from_big_endian
from_big_endian-snoc acc [] b = refl
from_big_endian-snoc acc (x ∷ bs) b = from_big_endian-snoc (acc * 256 + x) bs b

from_big_endian-big_endian : (k n : ℕ) → n < 256 ^ k → from_big_endian 0 (big_endian k n) ≡ n
unfolding big_endian from_big_endian
from_big_endian-big_endian zero n h = omega arith
from_big_endian-big_endian (suc k) n h =
    from_big_endian-snoc 0 (big_endian k (n / 256)) (n % 256)
    ∙ omega (arith, from_big_endian-big_endian k (n / 256) (omega (arith, h, pow-suc 256 k)))

take-append : (k : ℕ) (xs ys : Bytes) → length xs ≡ k → take k (xs ++ ys) ≡ xs
unfolding take
take-append zero [] ys h = refl
take-append zero (x ∷ xs) ys h = absurd (omega arith)
take-append (suc k) [] ys h = absurd (omega arith)
take-append (suc k) (x ∷ xs) ys h = ap (◌∷◌ x) (take-append k xs ys (omega arith))

drop-append : (k : ℕ) (xs ys : Bytes) → length xs ≡ k → drop k (xs ++ ys) ≡ ys
unfolding drop
drop-append zero [] ys h = refl
drop-append zero (x ∷ xs) ys h = absurd (omega arith)
drop-append (suc k) [] ys h = absurd (omega arith)
drop-append (suc k) (x ∷ xs) ys h = drop-append k xs ys (omega arith)

-- A blob of fewer than 2^64 bytes is wrapped and unwrapped to itself.
pub deserialize_blob-serialize_blob :
    (content : Bytes)
    → length content < 2 ^ 64
    → (wrapped : Bytes) × (serialize_blob content ≡ ok wrapped)
      × (deserialize_blob wrapped ≡ ok content)
unfolding serialize_blob deserialize_blob
deserialize_blob-serialize_blob content h =
    let head = big_endian 8 (length content) in
    (
      head ++ content,
      ground (arith, h),
      ground (
        arith,
        drop-append 8 head content (length-big_endian 8 (length content)),
        take-append 8 head content (length-big_endian 8 (length content)),
        from_big_endian-big_endian 8 (length content) h,
        length-append head content,
        length-big_endian 8 (length content),
      ),
    )
