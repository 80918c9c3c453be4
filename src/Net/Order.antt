-- ===== src/Net/Order.antt =====
-- The byte order of include/net.h.
use peker_os.Common.{ℕ, ◌+◌, ◌*◌, ◌/◌, ◌%◌, ◌^◌, ◌<◌, ◌≡◌, arith}
use peker_os.Net.{htons, htonl, load16, load32}

-- A number of 16 bits turned round twice is as it was.
pub htons-htons : (v : ℕ) → v < 2 ^ 16 → htons (htons v) ≡ v
unfolding htons
htons-htons v small = omega arith

pub htonl-htonl : (v : ℕ) → v < 2 ^ 32 → htonl (htonl v) ≡ v
unfolding htonl
htonl-htonl v small = omega arith

-- Turned round, a number loaded from memory is the one with the first byte the highest.
pub htons-load16 :
    (m : ℕ → ℕ) (i : ℕ) → m i < 256 → m (i + 1) < 256 → htons (load16 m i) ≡ 256 * m i + m (i + 1)
unfolding htons
htons-load16 m i a b = omega (arith, a, b)

pub htonl-load32 :
    (m : ℕ → ℕ) (i : ℕ)
    → m i < 256
    → m (i + 1) < 256
    → m (i + 2) < 256
    → m (i + 3) < 256
    → htonl (load32 m i) ≡ 16777216 * m i + 65536 * m (i + 1) + 256 * m (i + 2) + m (i + 3)
unfolding htonl
htonl-load32 m i a b c d = omega (arith, a, b, c, d)

-- A number sent in network order is read as it was.
pub stored16 : (v : ℕ) → v < 2 ^ 16 → htons (htons v % 256 + 256 * (htons v / 256 % 256)) ≡ v
unfolding htons
stored16 v small = omega arith

pub stored32 :
    (v : ℕ)
    → v < 2 ^ 32
    → htonl (
        htonl v % 256
        + 256 * (htonl v / 256 % 256)
        + 65536 * (htonl v / 65536 % 256)
        + 16777216 * (htonl v / 16777216 % 256))
      ≡ v
unfolding htonl
stored32 v small = omega arith
