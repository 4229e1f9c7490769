-- ===== src/Workload/Mapping.antt =====
-- `WriteDataMmap` of src/wrapper/workload.cpp. The mapping is a block of bytes: an access outside it is a
-- fault.
pub mod Copies
pub mod Aligned
pub mod Overrun
pub mod Examples
use panda_scratchpad.Base.{
  ℕ, zero, suc, ◌+◌, ◌-◌, ◌*◌, ◌%◌, ◌≤◌, ◌<◌, ◌≡◌, refl, ◌∙◌, inl, inr, Bool, true, false, Option,
  none, some, [], ◌∷◌, ◌++◌, ◌==◌, ltb, leb, leb-eq_true, if◌then◌else◌, arith, Bool-cases, length,
  get_elem?, take, drop, length-append, length-take, length-drop, drop-drop,
}
use panda_scratchpad.Base.Int.{ℤ, pos, negsuc, is_neg}
use panda_scratchpad.Base.Words.{Bytes, u32}
use panda_scratchpad.Base.Outcome.{Outcome, ok, failed, fault, stuck, ◌>>=◌}
use panda_scratchpad.Base.Memory.{memcpy, memcpy_at}
use panda_scratchpad.Workload.{block_part, rounded_diff, test_data_block}
use panda_scratchpad.Workload.Block.{
  letter, get_elem?-block, letter-eq, length_test_data_block, get_elem?-append_front,
  get_elem?-append_back,
}

-- The part in front of the next multiple of 4096: all of the block's end, whatever the size.
unfoldable pub mmap_start : ℕ → Bytes → Outcome Bytes
mmap_start offset mem =
    if rounded_diff offset == 0
    then ok mem
    else (block_part (offset % 4096) (4096 - offset % 4096) >>= λ bytes.
        memcpy mem (offset % 4096) bytes)

-- The loop, with `total` for `size - rounded_offset_diff`.
unfoldable pub mmap_loop : (fuel diff total num_written : ℕ) → Bytes → Outcome Bytes
mmap_loop zero diff total num_written mem = if num_written == total then ok mem else stuck
mmap_loop (suc fuel) diff total num_written mem = elim (num_written == total) [
  | true ↦ ok mem
  | false ↦
      let to_write = if ltb total (u32 (num_written + 4096)) then total - num_written else 4096 in
      block_part 0 to_write >>= λ bytes. memcpy mem (diff + num_written) bytes >>= λ mem'.
      mmap_loop fuel diff total (u32 (num_written + to_write)) mem'
]

unfoldable pub mmap_writes : (fuel offset size : ℕ) → Bytes → Outcome Bytes
unfolding mmap_start mmap_loop
mmap_writes fuel offset size mem = mmap_start offset mem >>= λ mem'.
    mmap_loop fuel (rounded_diff offset) (u32 (size + 4294967296 - rounded_diff offset)) 0 mem'

-- `mmap` of `size` bytes from a page of the file, `none` for MAP_FAILED, and `msync` of the mapping with
-- the `munmap` behind it.
pub record Mapper (W : Type 0) : Type 0 where
  pub mmap : (size offset : ℕ) → W → Option Bytes
  pub msync : Bytes → (map_size : ℕ) → W → ℤ × W

unfoldable pub write_data_mmap :
    {W : Type 0} → Mapper W → (fuel offset size : ℕ) → W → Outcome (ℤ × W)
unfolding mmap_writes
write_data_mmap mapper fuel offset size w = elim (mapper.mmap size (offset - offset % 4096) w) [
  | none ↦ ok (negsuc 0, w)
  | some mem ↦ mmap_writes fuel offset size mem >>= λ mem'.
      let (res, w') = mapper.msync mem' (u32 (size + offset % 4096)) w in
      ok ((if is_neg res then negsuc 0 else pos 0), w')
]
