-- ===== src/Workload/Mapping/Aligned.antt =====
-- `WriteDataMmap` of src/wrapper/workload.cpp at a multiple of the block's size.
use panda_scratchpad.Base.{
  ℕ, zero, suc, ◌+◌, ◌-◌, ◌%◌, ◌≤◌, ◌<◌, ◌≡◌, refl, ap, ◌∙◌, ◌⊎◌, inl, inr, false, some, [], ◌++◌,
  ◌==◌, ltb, if◌then◌else◌, arith, Bool-cases, length, get_elem?, drop, length-append, length-drop,
  drop-drop,
}
use panda_scratchpad.Base.Int.{ℤ, pos, negsuc, is_neg}
use panda_scratchpad.Base.Words.{Bytes, u32}
use panda_scratchpad.Base.Outcome.{Outcome, ok}
use panda_scratchpad.Base.Memory.{memcpy_at}
use panda_scratchpad.Workload.{rounded_diff}
use panda_scratchpad.Workload.Block.{
  letter, get_elem?-block, letter-eq, get_elem?-append_front, get_elem?-append_back,
}
use panda_scratchpad.Workload.Mapping.Copies.{part, length-part, block_part-part}
use panda_scratchpad.Workload.Mapping.{mmap_start, mmap_loop, mmap_writes, Mapper, write_data_mmap}

-- The known bytes, from a multiple of 4096 on.
abbrev pub Known : Bytes → Type 0
Known xs = (i : ℕ) → i < length xs → get_elem? xs i ≡ some (letter i)

Known-append :
    (xs : Bytes) (n : ℕ) → length xs % 4096 ≡ 0 → n ≤ 4096 → Known xs → Known (xs ++ part 0 n)
unfolding part
Known-append xs n a h k i l = elim (Bool-cases (ltb i (length xs))) [
  | inl q ↦
      let inside : i < length xs = ground arith in
      get_elem?-append_front xs (part 0 n) i inside ∙ k i inside
  | inr q ↦
      let behind : i ≡ length xs + (i - length xs) = ground arith in
      let inside : i - length xs < n =
        ground (arith, length-append xs (part 0 n), length-part 0 n (omega arith)) in
      rw behind (
        get_elem?-append_back xs (part 0 n) (i - length xs)
        ∙ (get_elem?-block 0 n (i - length xs) (omega arith) inside
            ∙ ap some
                (letter-eq (0 + (i - length xs)) (length xs + (i - length xs)) (omega arith))))
]

-- One round.
mmap_loop_round :
    (fuel total num to_write : ℕ) (xs ys : Bytes)
    → length xs ≡ num
    → num < total
    → total + 4096 < 4294967296
    → (if ltb total (num + 4096) then total - num else 4096) ≡ to_write
    → to_write ≤ 4096
    → to_write ≤ length ys
    → num + to_write ≤ total
    → mmap_loop (suc fuel) 0 total num (xs ++ ys)
      ≡ mmap_loop fuel 0 total (num + to_write) ((xs ++ part 0 to_write) ++ drop to_write ys)
unfolding mmap_loop
mmap_loop_round fuel total num to_write xs ys e l b step small h m =
    let more : (num == total) ≡ false = ground arith in
    let no_wrap : u32 (num + 4096) ≡ num + 4096 = ground arith in
    let no_wrap' : u32 (num + to_write) ≡ num + to_write = ground arith in
    let n : length (part 0 to_write) ≡ to_write = length-part 0 to_write (omega arith) in
    rw (
      mmap_loop,
      more,
      no_wrap,
      step,
      block_part-part 0 to_write (omega arith),
      memcpy_at xs ys (part 0 to_write) (0 + num) (omega arith) (omega arith),
      n,
      no_wrap',
    )

-- The loop fills the mapping up to `total` with the known bytes.
abbrev pub Fills : (fuel total num : ℕ) → Bytes → Bytes → Type 0
Fills fuel total num xs ys =
    (zs : Bytes) × (length zs ≡ total)
    × Known zs
    × (mmap_loop fuel 0 total num (xs ++ ys) ≡ ok (zs ++ drop (total - num) ys))

Fills-round :
    (fuel total num to_write : ℕ) (xs ys : Bytes)
    → length xs ≡ num
    → num < total
    → total + 4096 < 4294967296
    → (if ltb total (num + 4096) then total - num else 4096) ≡ to_write
    → to_write ≤ 4096
    → to_write ≤ length ys
    → num + to_write ≤ total
    → Fills fuel total (num + to_write) (xs ++ part 0 to_write) (drop to_write ys)
    → Fills (suc fuel) total num xs ys
Fills-round fuel total num to_write xs ys e l b step small h m (zs, n, k, r) =
    let rest : to_write + (total - (num + to_write)) ≡ total - num = omega arith in
    let tail : drop (total - (num + to_write)) (drop to_write ys) ≡ drop (total - num) ys =
      drop-drop to_write (total - (num + to_write)) ys ∙ rw rest in
    (zs, n, k, mmap_loop_round fuel total num to_write xs ys e l b step small h m ∙ (r ∙ rw tail))

mmap_loop-Fills :
    (fuel total num : ℕ) (xs ys : Bytes)
    → length xs ≡ num
    → (num % 4096 ≡ 0) ⊎ (num ≡ total)
    → num ≤ total
    → total ≤ num + length ys
    → total + 4096 < 4294967296
    → total - num < fuel
    → Known xs
    → Fills fuel total num xs ys
unfolding mmap_loop
mmap_loop-Fills zero total num xs ys e a m h b f k = absurd (omega arith)
mmap_loop-Fills (suc fuel) total num xs ys e a m h b f k = elim (Bool-cases (num == total)) [
  | inl q ↦
      let same : num ≡ total = ground arith in
      let nothing : total - num ≡ 0 = omega arith in (xs, e ∙ same, k, rw (mmap_loop, q, nothing))
  | inr q ↦
      let aligned : num % 4096 ≡ 0 = ground arith in
      let l : num < total = ground arith in
      let w = if ltb total (num + 4096) then total - num else 4096 in
      let small : w ≤ 4096 = ground arith in
      let fits : num + w ≤ total = ground arith in
      let next : ((num + w) % 4096 ≡ 0) ⊎ (num + w ≡ total) = ground arith in
      let moves : 0 < w = ground arith in
      Fills-round fuel total num w xs ys e l b refl small (omega arith) fits (
        mmap_loop-Fills fuel total (num + w) (xs ++ part 0 w) (drop w ys)
          (length-append xs (part 0 w) ∙ omega (arith, length-part 0 w (omega arith))) next fits
          (omega (arith, length-drop w ys)) b (omega arith)
          (Known-append xs w (omega arith) small k))
]

write_data_mmap-mmap_loop :
    {W : Type 0} (mapper : Mapper W) (fuel offset size : ℕ) (w : W) (mem mem' : Bytes)
    → offset % 4096 ≡ 0
    → offset + 4096 < 4294967296
    → size + 4096 < 4294967296
    → mapper.mmap size offset w ≡ some mem
    → mmap_loop fuel 0 size 0 mem ≡ ok mem'
    → write_data_mmap mapper fuel offset size w ≡ (
        let (res, w') = mapper.msync mem' size w in
        ok ((if is_neg res then negsuc 0 else pos 0), w'))
unfolding write_data_mmap mmap_writes mmap_start
write_data_mmap-mmap_loop {W = W} mapper fuel offset size w mem mem' a b c g r =
    let start : offset - offset % 4096 ≡ offset = omega arith in
    let no_diff : rounded_diff offset ≡ 0 = omega arith in
    let whole : u32 (size + offset % 4096) ≡ size = omega arith in
    let total : u32 (size + 4294967296 - 0) ≡ size = omega arith in
    let ends : ℕ → Outcome (ℤ × W) = (λ n.
      let (res, w') = mapper.msync mem' n w in ok ((if is_neg res then negsuc 0 else pos 0), w')) in
    rw (write_data_mmap, start, g, no_diff, total, r) (ap ends whole)

-- The mapping starts at the range, and holds it. With as much fuel as bytes and one more,
-- `WriteDataMmap` gives `msync` the mapping with the known bytes in the range and nothing else changed,
-- and returns 0 if that succeeds and -1 if not.
pub write_data_mmap-Known :
    {W : Type 0} (mapper : Mapper W) (fuel offset size : ℕ) (w : W) (mem : Bytes)
    → offset % 4096 ≡ 0
    → offset + 4096 < 4294967296
    → size + 4096 < 4294967296
    → size < fuel
    → mapper.mmap size offset w ≡ some mem
    → size ≤ length mem
    → (zs : Bytes) × (length zs ≡ size)
      × ((i : ℕ) → i < size → get_elem? zs i ≡ some (letter (offset + i)))
      × (write_data_mmap mapper fuel offset size w ≡ (
          let (res, w') = mapper.msync (zs ++ drop size mem) size w in
          ok ((if is_neg res then negsuc 0 else pos 0), w')))
write_data_mmap-Known mapper fuel offset size w mem a b c f g h =
    let nothing : size - 0 ≡ size = omega arith in
    let (zs, n, k, r) =
      mmap_loop-Fills fuel size 0 [] mem refl (inl refl) (omega arith) (omega arith) c (omega arith)
        (λ i l. elim l [ ]) in
    (
      zs,
      n,
      (λ i l. k i (rw n l) ∙ ap some (letter-eq i (offset + i) (omega arith))),
      write_data_mmap-mmap_loop mapper fuel offset size w mem (zs ++ drop size mem) a b c g
          (r ∙ rw nothing),
    )
