-- ===== src/Base/Memory.antt =====
-- Blocks of bytes: `memcpy` into and out of a block, and the allocator, which is not the program's.
use Prim.Native.Nat.{ℕ, ◌+◌, ◌≤◌}
use mathlib.Core.Path.{◌≡◌}
use mathlib.Core.Bool.{Bool}
use mathlib.Core.List.{◌++◌, append_assoc}
use native.Mathlib.Omega.{arith}
use panda_scratchpad.Base.Tests.{leb, if◌then◌else◌, leb-eq_true}
use panda_scratchpad.Base.Lists.{
  length, take, drop, length-append, take_append, drop_append, drop_past, drop-drop, length-drop,
}
use panda_scratchpad.Base.Words.{Bytes}
use panda_scratchpad.Base.Outcome.{Outcome, ok, fault, ◌>>=◌}

-- `new (std::nothrow) char[n]`: whether it succeeds, and what the block holds before a write.
pub record Allocator : Type 0 where
  pub can_alloc : ℕ → Bool
  pub fresh : ℕ → Bytes
  pub length-fresh : (n : ℕ) → length (fresh n) ≡ n

-- `memcpy(buf + off, bs, length bs)`; a write past the block's end is a fault.
unfoldable pub memcpy : Bytes → ℕ → Bytes → Outcome Bytes
memcpy buf off bs =
    if leb (off + length bs) (length buf)
    then ok (take off buf ++ (bs ++ drop (off + length bs) buf))
    else fault

-- `memcpy(&x, ptr, n); ptr += n`; a read past the block's end is a fault.
unfoldable pub read_bytes : ℕ → Bytes → Outcome (Bytes × Bytes)
read_bytes n bs = if leb n (length bs) then ok (take n bs, drop n bs) else fault

-- A write behind a prefix that is already written.
pub memcpy_at :
    (xs ys bs : Bytes) (off : ℕ)
    → off ≡ length xs
    → length bs ≤ length ys
    → memcpy (xs ++ ys) off bs ≡ ok ((xs ++ bs) ++ drop (length bs) ys)
unfolding memcpy
memcpy_at xs ys bs off e h = rw (
  e,
  leb-eq_true (length xs + length bs) (length (xs ++ ys)) (omega (arith, length-append xs ys)),
  take_append,
  drop_past,
  append_assoc,
)

pub read_bytes_append :
    (n : ℕ) (xs ys : Bytes) → length xs ≡ n → read_bytes n (xs ++ ys) ≡ ok (xs, ys)
unfolding read_bytes
read_bytes_append n xs ys e = rw (
  ← e,
  leb-eq_true (length xs) (length (xs ++ ys)) (omega (arith, length-append xs ys)),
  take_append,
  drop_append,
)

-- Two writes in a row, whatever follows them.
pub memcpy_two {ℓ} :
    {B : Type ℓ} (xs ys bs cs : Bytes) (off next : ℕ) (k : Bytes → Outcome B)
    → off ≡ length xs
    → next ≡ off + length bs
    → length (bs ++ cs) ≤ length ys
    → (memcpy (xs ++ ys) off bs >>= λ buf. memcpy buf next cs >>= k)
      ≡ k ((xs ++ (bs ++ cs)) ++ drop (length (bs ++ cs)) ys)
memcpy_two xs ys bs cs off next k e f h =
    let n : length (bs ++ cs) ≡ length bs + length cs = length-append bs cs in
    rw (
      memcpy_at xs ys bs off e (omega arith),
      memcpy_at (xs ++ bs) (drop (length bs) ys) cs next (omega (arith, length-append xs bs))
          (omega (arith, length-drop (length bs) ys)),
      n,
      drop-drop,
      append_assoc xs bs cs,
    )
