-- ===== src/Workload/Loops.antt =====
-- The three loops of `WriteData` of src/wrapper/workload.cpp: each ends within its fuel, reads only the
-- block, and leaves the known bytes in the file.
use panda_scratchpad.Base.{
  ℕ, zero, suc, ◌+◌, ◌-◌, ◌%◌, ◌≤◌, ◌<◌, ◌≡◌, inl, inr, true, arith, Bool-cases, ltb, ltb-eq_true,
}
use panda_scratchpad.Base.Int.{to_ℕ}
use panda_scratchpad.Base.Words.{u32}
use panda_scratchpad.Workload.{Pwrite, unaligned_loop, aligned_loop, end_loop}
use panda_scratchpad.Workload.Filled.{IsFile, Filled, Ends, write_part-Ends}

module _ {W : Type 0} (pwrite : Pwrite W) (at : ℕ → W → ℕ) (file : IsFile W pwrite at) (offset : ℕ)
    (v : W) where
  pub unaligned_loop-Ends :
      (fuel to_write num : ℕ) (w : W)
      → to_write < num + fuel
      → num ≤ to_write
      → to_write + offset % 4096 ≤ 4096
      → offset + to_write < 4294967296
      → Filled at v w offset (offset + num)
      → Ends pwrite at offset v to_write (unaligned_loop pwrite offset fuel to_write num w)
  unfolding unaligned_loop
  unaligned_loop-Ends zero to_write num w f h page small before = absurd (omega arith)
  unaligned_loop-Ends (suc fuel) to_write num w f h page small before =
      elim (Bool-cases (ltb num to_write)) [
        | inr q ↦
            let e : num ≡ to_write = ground arith in rw (unaligned_loop, q) (e, rw e at before)
        | inl q ↦
            let l : num < to_write = ground arith in
            rw (unaligned_loop, q)
              (write_part-Ends pwrite at offset v to_write ((num + offset) % 4096) (to_write - num)
                num w (λ res. unaligned_loop pwrite offset fuel to_write (u32 (num + to_ℕ res)))
                file (omega arith) (omega arith) (omega arith) h (omega arith) before
                (λ k w' le p after.
                  let e : u32 (num + k) ≡ num + k = omega arith in
                  rw e (
                    unaligned_loop-Ends fuel to_write (num + k) w' (omega arith) (omega arith) page
                      small after)))
      ]

  -- `first` bytes are written before the full pages.
  pub aligned_loop-Ends :
      (fuel aligned first done : ℕ) (w : W)
      → aligned < done + fuel
      → done ≤ aligned
      → aligned % 4096 ≡ 0
      → (0 < aligned → (offset + first) % 4096 ≡ 0)
      → offset + (first + aligned) < 4294967296
      → Filled at v w offset (offset + (first + done))
      → Ends pwrite at offset v
          (first + aligned)
          (aligned_loop pwrite offset fuel aligned (first + done) done w)
  unfolding aligned_loop
  aligned_loop-Ends zero aligned first done w f h pages start small before = absurd (omega arith)
  aligned_loop-Ends (suc fuel) aligned first done w f h pages start small before =
      elim (Bool-cases (ltb done aligned)) [
        | inr q ↦
            let e : done ≡ aligned = ground arith in
            rw (aligned_loop, q) (omega arith, rw e at before)
        | inl q ↦
            let l : done < aligned = ground arith in
            rw (aligned_loop, q)
              (write_part-Ends pwrite at offset v (first + aligned) (done % 4096)
                (4096 - done % 4096) (first + done) w
                (λ res.
                  aligned_loop pwrite offset fuel aligned (u32 (first + done + to_ℕ res))
                    (u32 (done + to_ℕ res)))
                file (omega arith) (omega (arith, start (omega arith))) (omega arith) (omega arith)
                (omega arith) before
                (λ k w' le p after.
                  let e : u32 (first + done + k) ≡ first + (done + k) = omega arith in
                  let g : u32 (done + k) ≡ done + k = omega arith in
                  let t : first + done + k ≡ first + (done + k) = omega arith in
                  rw (e, g)
                    (aligned_loop-Ends fuel aligned first (done + k) w' (omega arith) (omega arith)
                      pages start small (rw t at after))))
      ]

  -- `first` bytes are written before the last part of a page.
  pub end_loop-Ends :
      (fuel size first done : ℕ) (w : W)
      → size < first + done + fuel
      → first + done ≤ size
      → size < first + 4096
      → (offset + first) % 4096 ≡ 0
      → offset + size < 4294967296
      → Filled at v w offset (offset + (first + done))
      → Ends pwrite at offset v size (end_loop pwrite offset fuel size (first + done) done w)
  unfolding end_loop
  end_loop-Ends zero size first done w f h page start small before = absurd (omega arith)
  end_loop-Ends (suc fuel) size first done w f h page start small before =
      elim (Bool-cases (ltb (first + done) size)) [
        | inr q ↦ let e : first + done ≡ size = ground arith in rw (end_loop, q) (e, rw e at before)
        | inl q ↦
            let l : first + done < size = ground arith in
            let assertion : ltb done 4096 ≡ true = ltb-eq_true done 4096 (omega arith) in
            rw (end_loop, q, assertion)
              (write_part-Ends pwrite at offset v size (done % 4096) (size - (first + done))
                (first + done) w
                (λ res.
                  end_loop pwrite offset fuel size (u32 (first + done + to_ℕ res))
                    (u32 (done + to_ℕ res)))
                file (omega arith) (omega arith) (omega arith) (omega arith) (omega arith) before
                (λ k w' le p after.
                  let e : u32 (first + done + k) ≡ first + (done + k) = omega arith in
                  let g : u32 (done + k) ≡ done + k = omega arith in
                  let t : first + done + k ≡ first + (done + k) = omega arith in
                  rw (e, g)
                    (end_loop-Ends fuel size first (done + k) w' (omega arith) (omega arith) page
                      start small (rw t at after))))
      ]
