-- ===== src/AsyncNet/Protocol/Bytes.antt =====
-- The big-endian bytes of a number and back.
use object_oriented_programm.Prelude.{ℕ, ◌+◌, ◌*◌, ◌/◌, ◌%◌, ◌≡◌, ◌<◌, arith}

pub bytes16 : (n : ℕ) → n < 65536 → n / 256 % 256 * 256 + n % 256 ≡ n
bytes16 n h = omega arith

pub bytes32 :
    (n : ℕ)
    → n < 4294967296
    → n / 16777216 % 256 * 16777216 + n / 65536 % 256 * 65536 + n / 256 % 256 * 256 + n % 256 ≡ n
bytes32 n h = omega arith

-- Two bytes are those of the number that they make, and so are four.
pub number16 :
    (a b : ℕ) → a < 256 → b < 256 → ((a * 256 + b) / 256 % 256 ≡ a) × ((a * 256 + b) % 256 ≡ b)
number16 a b h k = (omega arith, omega arith)

pub number32 :
    (a b c d : ℕ)
    → a < 256
    → b < 256
    → c < 256
    → d < 256
    → let n = a * 16777216 + b * 65536 + c * 256 + d in
      (n / 16777216 % 256 ≡ a) × (n / 65536 % 256 ≡ b) × (n / 256 % 256 ≡ c) × (n % 256 ≡ d)
number32 a b c d h i j k = (omega arith, omega arith, omega arith, omega arith)
