-- ===== src/Workload/Mapping/Copies.antt =====
-- A copy of a part of the block of src/wrapper/workload.cpp into a mapping.
use panda_scratchpad.Base.{
  ℕ, ◌+◌, ◌≤◌, ◌<◌, ◌≡◌, true, false, ◌++◌, leb, arith, length, take, drop, length-append,
  length-take, length-drop,
}
use panda_scratchpad.Base.Words.{Bytes}
use panda_scratchpad.Base.Outcome.{ok, fault}
use panda_scratchpad.Base.Memory.{memcpy}
use panda_scratchpad.Workload.{block_part, test_data_block}
use panda_scratchpad.Workload.Block.{length_test_data_block}

unfoldable pub part : (start n : ℕ) → Bytes
part start n = take n (drop start test_data_block)

pub length-part : (start n : ℕ) → start + n ≤ 4096 → length (part start n) ≡ n
unfolding part
length-part start n h = omega (
  arith,
  length-take n (drop start test_data_block),
  length-drop start test_data_block,
  length_test_data_block,
)

pub block_part-part : (start n : ℕ) → start + n ≤ 4096 → block_part start n ≡ ok (part start n)
unfolding part block_part
block_part-part start n h = let e : leb (start + n) 4097 ≡ true = ground arith in rw e

-- A copy that fits keeps the size of the mapping.
pub memcpy_fits :
    (mem bytes : Bytes) (off : ℕ)
    → off + length bytes ≤ length mem
    → (mem' : Bytes) × (length mem' ≡ length mem) × (memcpy mem off bytes ≡ ok mem')
unfolding memcpy
memcpy_fits mem bytes off h =
    let fits : leb (off + length bytes) (length mem) ≡ true = ground arith in
    let tail = drop (off + length bytes) mem in
    (
      take off mem ++ (bytes ++ tail),
      omega (
        arith,
        length-append (take off mem) (bytes ++ tail),
        length-append bytes tail,
        length-take off mem,
        length-drop (off + length bytes) mem,
      ),
      rw fits,
    )

pub memcpy_overruns :
    (mem bytes : Bytes) (off : ℕ) → length mem < off + length bytes → memcpy mem off bytes ≡ fault
unfolding memcpy
memcpy_overruns mem bytes off h =
    let over : leb (off + length bytes) (length mem) ≡ false = ground arith in rw over
