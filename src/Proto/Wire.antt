-- ===== src/Proto/Wire.antt =====
-- Bytes on the wire. A field of a packed structure is stored in the byte order of the host, which is
-- taken to be little-endian (x86); `htons` and `htonl` swap its bytes, and so do `ntohs` and `ntohl`.
use slimstream.Base.{
  ℕ, ◌+◌, ◌*◌, ◌/◌, ◌%◌, ◌^◌, ◌<◌, ◌≡◌, refl, Bool, true, false, ◌&&◌, List, [], ◌∷◌, arith, get_or,
  ◌==◌,
}

abbrev pub Bytes : Type 0
Bytes = List ℕ

-- the memory of a `std::uint16_t` and of a `std::uint32_t`
unfoldable pub store16 : ℕ → Bytes
store16 n = n % 256 ∷ n / 256 % 256 ∷ []

unfoldable pub store32 : ℕ → Bytes
store32 n = n % 256 ∷ n / 256 % 256 ∷ n / 65536 % 256 ∷ n / 16777216 % 256 ∷ []

-- the value of such memory at an offset
unfoldable pub load16 : Bytes → ℕ → ℕ
load16 bs i = get_or bs i 0 + 256 * get_or bs (i + 1) 0

unfoldable pub load32 : Bytes → ℕ → ℕ
load32 bs i =
    get_or bs i 0
    + 256 * get_or bs (i + 1) 0
    + 65536 * get_or bs (i + 2) 0
    + 16777216 * get_or bs (i + 3) 0

unfoldable pub htons : ℕ → ℕ
htons n = n % 256 * 256 + n / 256 % 256

unfoldable pub htonl : ℕ → ℕ
htonl n = n % 256 * 16777216 + n / 256 % 256 * 65536 + n / 65536 % 256 * 256 + n / 16777216 % 256

-- equality of two byte sequences, as `std::string::compare` and the maps' lookup decide it
unfoldable pub same_bytes : Bytes → Bytes → Bool
same_bytes [] [] = true
same_bytes [] (y ∷ ys) = false
same_bytes (x ∷ xs) [] = false
same_bytes (x ∷ xs) (y ∷ ys) = x == y && same_bytes xs ys

pub same_bytes→eq : (xs ys : Bytes) → same_bytes xs ys ≡ true → xs ≡ ys
unfolding same_bytes
same_bytes→eq [] [] h = refl
same_bytes→eq [] (y ∷ ys) h = ground arith
same_bytes→eq (x ∷ xs) [] h = ground arith
same_bytes→eq (x ∷ xs) (y ∷ ys) h = ground (arith, same_bytes→eq xs ys)

pub same_bytes_refl : (xs : Bytes) → same_bytes xs xs ≡ true
unfolding same_bytes
same_bytes_refl [] = refl
same_bytes_refl (x ∷ xs) = ground (arith, same_bytes_refl xs)

pub htonl-htonl : (n : ℕ) → n < 2 ^ 32 → htonl (htonl n) ≡ n
unfolding htonl
htonl-htonl n h = omega arith

-- A swapped field lies on the wire with its most significant byte first.
pub store16-htons : (n : ℕ) → store16 (htons n) ≡ n / 256 % 256 ∷ n % 256 ∷ []
unfolding store16 htons
store16-htons n = ground arith
