-- ===== src/Workload.antt =====
-- src/wrapper/workload.cpp: the known bytes that a test case writes to a file. `pwrite` is a parameter.
pub mod Block
pub mod Filled
pub mod Loops
pub mod Parts
pub mod Data
pub mod Mapping
pub mod Examples
use panda_scratchpad.Base.{
  ℕ, zero, suc, ◌+◌, ◌-◌, ◌*◌, ◌/◌, ◌%◌, ◌⊎◌, inl, inr, Bool, true, false, List, [], ◌∷◌, ◌++◌,
  ◌==◌, ltb, leb, if◌then◌else◌, take, drop, length,
}
use panda_scratchpad.Base.Int.{ℤ, pos, is_neg, to_ℕ, to_int}
use panda_scratchpad.Base.Words.{Bytes, u32}
use panda_scratchpad.Base.Texts.{codes}
use panda_scratchpad.Base.Outcome.{Outcome, ok, fault, stuck}
use panda_scratchpad.Base.Exec.{Exec, ◌>>=◌, ◌>>◌, pure, lift}

-- What `REP` puts together: the text `n` times.
unfoldable pub repeat : ℕ → Bytes → Bytes
repeat zero s = []
repeat (suc n) s = s ++ repeat n s

unfoldable pub letters : Bytes
letters = codes "abcdefghijklmnopqrstuvwxyz123456"

-- 4096 characters and the NUL.
unfoldable pub test_data_block : Bytes
unfolding repeat letters
test_data_block = repeat 128 letters ++ 0 ∷ []

-- `pwrite(fd, bytes, length bytes, offset)`
abbrev pub Pwrite : Type 0 → Type 0
Pwrite W = Bytes → ℕ → W → ℤ × W

-- The `n` bytes behind `kTestDataBlock + start`; a read past the block's end is a fault.
unfoldable pub block_part : (start n : ℕ) → Outcome Bytes
block_part start n =
    if leb (start + n) 4097 then ok (take n (drop start test_data_block)) else fault

-- A multiple of 4096: `n & ~4095`.
abbrev pub round_down : ℕ → ℕ
round_down n = n / 4096 * 4096

abbrev pub rounded_offset : ℕ → ℕ
rounded_offset offset = round_down (u32 (offset + 4095))

-- From the start to the next multiple of 4096, modulo 2 to the 32.
abbrev pub rounded_diff : ℕ → ℕ
rounded_diff offset = u32 (rounded_offset offset + 4294967296 - offset)

abbrev pub aligned_size : (offset size : ℕ) → ℕ
aligned_size offset size =
    if leb 4096 size then round_down (u32 (size + 4294967296 - rounded_diff offset)) else 0

module _ {W : Type 0} (pwrite : Pwrite W) (offset : ℕ) where
  -- `int res = pwrite(...)` of a part of the block at `offset + num_written`
  abbrev pub write_part : (start n num_written : ℕ) → Exec W ℤ
  write_part start n num_written = do
    bytes ← lift (block_part start n)
    λ w. let (res, w') = pwrite bytes (u32 (offset + num_written)) w in (ok (to_int res), w')

  -- The loops give the error that ends the function, or the bytes that are written in the end.
  -- The first loop: the part in front of the next multiple of 4096.
  unfoldable pub unaligned_loop : (fuel to_write num_written : ℕ) → Exec W (ℤ ⊎ ℕ)
  unaligned_loop zero to_write num_written =
      if ltb num_written to_write then lift stuck else pure (inr num_written)
  unaligned_loop (suc fuel) to_write num_written = elim (ltb num_written to_write) [
    | false ↦ pure (inr num_written)
    | true ↦ do
      res ← write_part ((num_written + offset) % 4096) (to_write - num_written) num_written
      if is_neg res
          then pure (inl res)
          else unaligned_loop fuel to_write (u32 (num_written + to_ℕ res))
  ]

  -- The second loop: full pages.
  unfoldable pub aligned_loop : (fuel aligned num_written aligned_written : ℕ) → Exec W (ℤ ⊎ ℕ)
  aligned_loop zero aligned num_written aligned_written =
      if ltb aligned_written aligned then lift stuck else pure (inr num_written)
  aligned_loop (suc fuel) aligned num_written aligned_written = elim (ltb aligned_written aligned) [
    | false ↦ pure (inr num_written)
    | true ↦ do
      res ← write_part (aligned_written % 4096) (4096 - aligned_written % 4096) num_written
      if is_neg res
          then pure (inl res)
          else aligned_loop fuel aligned (u32 (num_written + to_ℕ res))
              (u32 (aligned_written + to_ℕ res))
  ]

  -- The third loop: the last part of a page, with the assertion.
  unfoldable pub end_loop : (fuel size num_written end_written : ℕ) → Exec W (ℤ ⊎ ℕ)
  end_loop zero size num_written end_written =
      if ltb num_written size then lift stuck else pure (inr num_written)
  end_loop (suc fuel) size num_written end_written = elim (ltb num_written size) [
    | false ↦ pure (inr num_written)
    | true ↦ elim (ltb end_written 4096) [
      | false ↦ lift fault
      | true ↦ do
        res ← write_part (end_written % 4096) (size - num_written) num_written
        if is_neg res
            then pure (inl res)
            else end_loop fuel size (u32 (num_written + to_ℕ res)) (u32 (end_written + to_ℕ res))
    ]
  ]

  -- The code behind a loop; an error ends the function.
  abbrev pub and_then : Exec W (ℤ ⊎ ℕ) → (ℕ → Exec W (ℤ ⊎ ℕ)) → Exec W (ℤ ⊎ ℕ)
  and_then loop next = loop >>= λ r. elim r [ inl res ↦ pure (inl res) | inr n ↦ next n ]

  unfoldable pub write_loops : (fuel size : ℕ) → Exec W (ℤ ⊎ ℕ)
  unfolding unaligned_loop aligned_loop end_loop
  write_loops fuel size =
      let diff = rounded_diff offset in
      let to_write = if ltb size diff then size else diff in
      let unaligned =
        if rounded_offset offset == offset then pure (inr 0) else unaligned_loop fuel to_write 0 in
      and_then unaligned λ n.
        and_then (aligned_loop fuel (aligned_size offset size) n 0)
          λ k. if k == size then pure (inr k) else end_loop fuel size k 0

  -- The results of the function.
  abbrev pub finish : Exec W (ℤ ⊎ ℕ) → Exec W ℤ
  finish loops = loops >>= λ r. elim r [ inl res ↦ pure res | inr n ↦ pure (pos 0) ]

  -- `WriteData(fd, offset, size)`
  unfoldable pub write_data : (fuel size : ℕ) → Exec W ℤ
  unfolding write_loops
  write_data fuel size = finish (write_loops fuel size)
