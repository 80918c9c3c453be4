-- ===== src/Net.antt =====
-- kernel/net/net.c and include/net.h: byte order and the Internet checksum.
pub mod Order
mod Checksum
pub mod Packets
mod Udp
mod Tests
use peker_os.Common.{
  ℕ, zero, suc, ◌+◌, ◌-◌, ◌*◌, ◌/◌, ◌%◌, ◌^◌, Bool, true, false, if◌then◌else◌, ◌==◌, List, [], ◌∷◌,
}

-- `htons` and `ntohs`: in the source an `or` of two shifts that have no bit in common.
pub htons : ℕ → ℕ
htons v = v / 256 + v % 256 * 256

-- `htonl` and `ntohl`, in the order of the source's four terms.
pub htonl : ℕ → ℕ
htonl v = v % 256 * 16777216 + v / 256 % 256 * 65536 + v / 65536 % 256 * 256 + v / 16777216 % 256

-- The number that the processor loads from two bytes of memory, and from four.
abbrev pub load16 : (ℕ → ℕ) → ℕ → ℕ
load16 m i = m i + 256 * m (i + 1)

abbrev pub load32 : (ℕ → ℕ) → ℕ → ℕ
load32 m i = m i + 256 * m (i + 1) + 65536 * m (i + 2) + 16777216 * m (i + 3)

-- The bytes in memory of a number that the processor stores.
abbrev pub store16 : ℕ → List ℕ
store16 v = v % 256 ∷ v / 256 % 256 ∷ []

abbrev pub store32 : ℕ → List ℕ
store32 v = v % 256 ∷ v / 256 % 256 ∷ v / 65536 % 256 ∷ v / 16777216 % 256 ∷ []

-- The words of memory added to a sum of 32 bits; a byte left over is added as it is.
pub sum_words : ℕ → List ℕ → ℕ
sum_words sum [] = sum
sum_words sum (a ∷ []) = (sum + a) % 2 ^ 32
sum_words sum (a ∷ b ∷ rest) = sum_words ((sum + (a + 256 * b)) % 2 ^ 32) rest

-- The loop that folds the carries, on fuel.
pub fold_carries : ℕ → ℕ → ℕ
fold_carries zero sum = sum
fold_carries (suc k) sum =
    let folded = fold_carries k (sum % 65536 + sum / 65536) in
    if sum / 65536 == 0 then sum else folded

-- The complement of the folded sum, in 16 bits.
pub finish_checksum : ℕ → ℕ
finish_checksum sum = 65535 - fold_carries 3 sum % 65536

pub calculate_checksum : List ℕ → ℕ
calculate_checksum bytes = finish_checksum (sum_words 0 bytes)
