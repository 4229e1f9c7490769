-- ===== src/Base/Words.antt =====
-- Machine words and their big-endian bytes (endian.h), and the bit tests of C's flags.
use Prim.Native.Nat.{ℕ, zero, suc, ◌+◌, ◌*◌, ◌/◌, ◌%◌, ◌^◌, ◌<◌}
use mathlib.Core.Path.{◌≡◌, refl, ◌∙◌}
use mathlib.Core.Bool.{Bool}
use mathlib.Core.List.{List, [], ◌∷◌, ◌++◌, foldl, foldl-append}
use native.Mathlib.Nat.{pow-succ'}
use native.Mathlib.Omega.{arith}
use panda_scratchpad.Base.Tests.{◌==◌, leb}
use panda_scratchpad.Base.Lists.{length, length-append}

abbrev pub Bytes : Type 0
Bytes = List ℕ

abbrev pub u16 : ℕ → ℕ
u16 n = n % 65536

abbrev pub u32 : ℕ → ℕ
u32 n = n % 4294967296

abbrev pub u64 : ℕ → ℕ
u64 n = n % 18446744073709551616

-- Whether an unsigned value that is converted to a 32-bit `int` comes out negative.
abbrev pub int_is_neg : ℕ → Bool
int_is_neg n = leb 2147483648 (u32 n)

-- `x & (1 << k)` as a condition.
abbrev pub test_bit : ℕ → ℕ → Bool
test_bit x k = x / 2 ^ k % 2 == 1

-- The low `k` bytes of a word, most significant first: `htobe16` and `htobe64` in memory.
pub to_be : ℕ → ℕ → Bytes
to_be zero v = []
to_be (suc k) v = to_be k (v / 256) ++ (v % 256) ∷ []

abbrev add_byte : ℕ → ℕ → ℕ
add_byte acc b = acc * 256 + b

-- `be16toh` and `be64toh` of bytes in memory.
pub of_be : Bytes → ℕ
of_be bs = foldl add_byte 0 bs

pub length-to_be : (k v : ℕ) → length (to_be k v) ≡ k
unfolding to_be
length-to_be zero v = refl
length-to_be (suc k) v =
    length-append (to_be k (v / 256)) (v % 256 ∷ []) ∙ omega (arith, length-to_be k (v / 256))

pub of_be-to_be : (k v : ℕ) → v < 256 ^ k → of_be (to_be k v) ≡ v
unfolding to_be of_be
of_be-to_be zero v h = omega arith
of_be-to_be (suc k) v h =
    let small : v / 256 < 256 ^ k = omega (arith, pow-succ' 256 k) in
    foldl-append add_byte 0 (to_be k (v / 256)) (v % 256 ∷ [])
    ∙ omega (arith, of_be-to_be k (v / 256) small)

pub of_be_one : (b : ℕ) → of_be (b ∷ []) ≡ b
unfolding of_be
of_be_one b = omega arith

-- The low `k` bytes of a word, least significant first: a word in the memory of x86.
pub to_le : ℕ → ℕ → Bytes
to_le zero v = []
to_le (suc k) v = v % 256 ∷ to_le k (v / 256)

pub of_le : Bytes → ℕ
of_le [] = 0
of_le (b ∷ bs) = b + 256 * of_le bs

pub length-to_le : (k v : ℕ) → length (to_le k v) ≡ k
unfolding to_le
length-to_le zero v = refl
length-to_le (suc k) v = omega (arith, length-to_le k (v / 256))

pub of_le-to_le : (k v : ℕ) → v < 256 ^ k → of_le (to_le k v) ≡ v
unfolding to_le of_le
of_le-to_le zero v h = omega arith
of_le-to_le (suc k) v h =
    let small : v / 256 < 256 ^ k = omega (arith, pow-succ' 256 k) in
    omega (arith, of_le-to_le k (v / 256) small)
