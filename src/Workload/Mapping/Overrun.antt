-- ===== src/Workload/Mapping/Overrun.antt =====
-- Where `WriteDataMmap` of src/wrapper/workload.cpp runs over the end of its mapping.
use panda_scratchpad.Base.{
  ℕ, zero, suc, ◌+◌, ◌-◌, ◌%◌, ◌≤◌, ◌<◌, ◌≡◌, inl, inr, false, some, ◌==◌, ltb, leb, if◌then◌else◌,
  arith, Bool-cases, length,
}
use panda_scratchpad.Base.Words.{Bytes, u32}
use panda_scratchpad.Base.Outcome.{Outcome, fault, ◌>>=◌}
use panda_scratchpad.Base.Memory.{memcpy}
use panda_scratchpad.Workload.{rounded_diff}
use panda_scratchpad.Workload.Mapping.Copies.{
  part, length-part, block_part-part, memcpy_fits, memcpy_overruns,
}
use panda_scratchpad.Workload.Mapping.{mmap_start, mmap_loop, mmap_writes, Mapper, write_data_mmap}

memcpy_then_fault {ℓ} :
    {B : Type ℓ} (mem bytes : Bytes) (off : ℕ) (f : Bytes → Outcome B)
    → off + length bytes ≤ length mem
    → ((mem' : Bytes) → length mem' ≡ length mem → f mem' ≡ fault)
    → (memcpy mem off bytes >>= f) ≡ fault
memcpy_then_fault mem bytes off f h k =
    let (mem', len, e) = memcpy_fits mem bytes off h in rw e (k mem' len)

-- A loop that is to fill more than the mapping.
mmap_loop_overruns :
    (fuel diff total num : ℕ) (mem : Bytes)
    → diff + num ≤ length mem
    → length mem < diff + total
    → length mem + 8192 < 4294967296
    → length mem < fuel + num
    → mmap_loop fuel diff total num mem ≡ fault
unfolding mmap_loop
mmap_loop_overruns zero diff total num mem a h b f = absurd (omega arith)
mmap_loop_overruns (suc fuel) diff total num mem a h b f =
    let more : (num == total) ≡ false = ground arith in
    let no_wrap : u32 (num + 4096) ≡ num + 4096 = omega arith in
    let w = if ltb total (num + 4096) then total - num else 4096 in
    let small : w ≤ 4096 = ground arith in
    let n : length (part 0 w) ≡ w = length-part 0 w (omega arith) in
    let no_wrap' : u32 (num + w) ≡ num + w = ground arith in
    elim (Bool-cases (leb (diff + num + w) (length mem))) [
      | inl q ↦
          let inside : diff + num + w ≤ length mem = ground arith in
          let later : length mem < fuel + (num + w) = ground arith in
          rw (mmap_loop, more, no_wrap, block_part-part 0 w (omega arith))
            (memcpy_then_fault mem (part 0 w) (diff + num) _ (omega arith) (λ mem' len.
              rw no_wrap' (
                mmap_loop_overruns fuel diff total (num + w) mem' (omega arith) (omega arith)
                  (omega arith) (omega arith))))
      | inr q ↦
          let over : length mem < diff + num + w = ground arith in
          rw (
            mmap_loop,
            more,
            no_wrap,
            block_part-part 0 w (omega arith),
            memcpy_overruns mem (part 0 w) (diff + num) (omega arith),
          )
    ]

-- The range starts inside a page and ends in front of the next, and the mapping is a page or more:
-- `WriteDataMmap` runs over the end of its mapping, whatever the size of that.
pub write_data_mmap_overruns :
    {W : Type 0} (mapper : Mapper W) (fuel offset size : ℕ) (w : W) (mem : Bytes)
    → offset + 4096 < 4294967296
    → size + offset % 4096 < 4096
    → 0 < offset % 4096
    → mapper.mmap size (offset - offset % 4096) w ≡ some mem
    → 4096 ≤ length mem
    → length mem + 8192 < 4294967296
    → length mem < fuel
    → write_data_mmap mapper fuel offset size w ≡ fault
unfolding write_data_mmap mmap_writes mmap_start
write_data_mmap_overruns mapper fuel offset size w mem a b c g h k f =
    let diff : rounded_diff offset ≡ 4096 - offset % 4096 = omega arith in
    let some_diff : (4096 - offset % 4096 == 0) ≡ false = ground arith in
    let left = size + 4294967296 - (4096 - offset % 4096) in
    let total : u32 left ≡ left = omega arith in
    let start = part (offset % 4096) (4096 - offset % 4096) in
    let small : offset % 4096 + (4096 - offset % 4096) ≤ 4096 = omega arith in
    let copied : offset % 4096 + length start ≤ length mem =
      omega (arith, length-part (offset % 4096) (4096 - offset % 4096) small) in
    let inner : (memcpy mem (offset % 4096) start
          >>= mmap_loop fuel (4096 - offset % 4096) (u32 left) 0)
        ≡ fault =
      memcpy_then_fault mem start (offset % 4096)
        (mmap_loop fuel (4096 - offset % 4096) (u32 left) 0) copied
        (λ mem' len. rw total (
          mmap_loop_overruns fuel (4096 - offset % 4096) left 0 mem' (omega arith) (omega arith)
            (omega arith) (omega arith))) in
    rw (
      write_data_mmap,
      g,
      diff,
      some_diff,
      block_part-part (offset % 4096) (4096 - offset % 4096) small,
      inner,
    )
