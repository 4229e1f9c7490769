-- ===== src/Workload/Data.antt =====
-- `WriteData` of src/wrapper/workload.cpp as a whole.
use panda_scratchpad.Workload.Parts.{Parts, first_part, first_part-Parts}
use panda_scratchpad.Base.{
  ℕ, ◌+◌, ◌%◌, ◌≤◌, ◌<◌, ◌≡◌, ◌≢◌, refl, ◌⊎◌, inl, inr, arith, Bool-cases, ◌==◌, if◌then◌else◌,
}
use panda_scratchpad.Base.Int.{ℤ}
use panda_scratchpad.Base.Outcome.{Outcome, ok, failed, fault, stuck}
use panda_scratchpad.Base.Exec.{Exec, pure}
use panda_scratchpad.Workload.{
  Pwrite, unaligned_loop, aligned_loop, end_loop, rounded_offset, aligned_size, and_then,
  write_loops, write_data, finish,
}
use panda_scratchpad.Workload.Filled.{IsFile, Filled, Ends, Writes}
use panda_scratchpad.Workload.Loops.{unaligned_loop-Ends, aligned_loop-Ends, end_loop-Ends}

module _ {W : Type 0} (pwrite : Pwrite W) (at : ℕ → W → ℕ) (file : IsFile W pwrite at) (offset : ℕ)
    (v : W) where
  Filled-none : Filled at v v offset (offset + 0)
  Filled-none = record { known = λ p h l. absurd (omega arith); kept = λ p h. refl }

  continue-Ends :
      (goal total : ℕ) (r : Outcome (ℤ ⊎ ℕ)) (w : W) (next : ℕ → Exec W (ℤ ⊎ ℕ))
      → goal ≤ total
      → Ends pwrite at offset v goal (r, w)
      → ((w' : W)
          → Filled at v w' offset (offset + goal)
          → Ends pwrite at offset v total (next goal w'))
      → Ends pwrite at offset v total (and_then pwrite offset (λ _. (r, w)) next w)
  continue-Ends goal total (ok (inl res)) w next l h k = (h.0, (h.1.0, omega arith, h.1.2))
  continue-Ends goal total (ok (inr n)) w next l h k = rw (h.0) (k w h.1)
  continue-Ends goal total failed w next l h k = h
  continue-Ends goal total fault w next l h k = h
  continue-Ends goal total stuck w next l h k = h

  and_then-Ends :
      (goal total : ℕ) (m : Exec W (ℤ ⊎ ℕ)) (w : W) (next : ℕ → Exec W (ℤ ⊎ ℕ))
      → goal ≤ total
      → Ends pwrite at offset v goal (m w)
      → ((w' : W)
          → Filled at v w' offset (offset + goal)
          → Ends pwrite at offset v total (next goal w'))
      → Ends pwrite at offset v total (and_then pwrite offset m next w)
  and_then-Ends goal total m w next l h k = continue-Ends goal total (m w).0 (m w).1 next l h k

  last_part-Ends :
      (fuel size k : ℕ) (w : W)
      → size < fuel
      → k ≤ size
      → size < k + 4096
      → (k ≢ size → (offset + k) % 4096 ≡ 0)
      → offset + size < 4294967296
      → Filled at v w offset (offset + k)
      → Ends pwrite at offset v size
          ((if k == size then pure (inr k) else end_loop pwrite offset fuel size k 0) w)
  last_part-Ends fuel size k w enough within near start small before =
      elim (Bool-cases (k == size)) [
        | inl q ↦ let e : k ≡ size = ground arith in rw q (e, rw e at before)
        | inr q ↦
            let z : k + 0 ≡ k = omega arith in
            let ends =
              end_loop-Ends pwrite at file offset v fuel size k 0 w (omega arith) (omega arith) near
                (start (λ e. ground arith)) small in
            rw q ((rw z at ends) before)
      ]

  full_pages-Ends :
      (fuel n t : ℕ) (w : W)
      → n < fuel
      → n % 4096 ≡ 0
      → (0 < n → (offset + t) % 4096 ≡ 0)
      → offset + (t + n) < 4294967296
      → Filled at v w offset (offset + t)
      → Ends pwrite at offset v (t + n) (aligned_loop pwrite offset fuel n t 0 w)
  full_pages-Ends fuel n t w enough pages start small before =
      let z : t + 0 ≡ t = omega arith in
      let ends =
        aligned_loop-Ends pwrite at file offset v fuel n t 0 w (omega arith) (omega arith) pages
          start small in
      (rw z at ends) before

  write_loops-Ends :
      (fuel size : ℕ)
      → offset + size < 4294967296
      → size < fuel
      → Ends pwrite at offset v size (write_loops pwrite offset fuel size v)
  unfolding write_loops
  write_loops-Ends fuel size small enough =
      and_then-Ends t size unaligned v _ (omega (arith, parts.within)) first (λ w before.
        and_then-Ends (t + n) size (aligned_loop pwrite offset fuel n t 0) w _ parts.within
          (full_pages-Ends fuel n t w (omega (arith, parts.within)) parts.pages parts.start
            (omega (arith, parts.within)) before)
          (λ w' filled.
            last_part-Ends fuel size (t + n) w' enough parts.within parts.near parts.last small
              filled))
    where
      t : ℕ
      t = first_part offset size

      n : ℕ
      n = aligned_size offset size

      parts : Parts offset size t n
      parts = first_part-Parts offset size (omega arith) small

      unaligned : Exec W (ℤ ⊎ ℕ)
      unaligned =
          if rounded_offset offset == offset
          then pure (inr 0)
          else unaligned_loop pwrite offset fuel t 0

      first : Ends pwrite at offset v t (unaligned v)
      first = elim (Bool-cases (rounded_offset offset == offset)) [
        | inl q ↦ rw (q, parts.none_unaligned q) (refl, Filled-none)
        | inr q ↦ rw q (
            unaligned_loop-Ends pwrite at file offset v fuel t 0 v (omega (arith, parts.within))
              (omega arith) parts.in_page (omega (arith, parts.within)) Filled-none)
      ]

  Ends-Writes :
      (size : ℕ) (r : Outcome (ℤ ⊎ ℕ)) (w : W)
      → Ends pwrite at offset v size (r, w)
      → Writes pwrite at offset v size (finish pwrite offset (λ _. (r, w)) v)
  Ends-Writes size (ok (inl res)) w h = inr h
  Ends-Writes size (ok (inr n)) w h = inl (refl, h.1)
  Ends-Writes size failed w h = h
  Ends-Writes size fault w h = h
  Ends-Writes size stuck w h = h

  -- `WriteData` of a range that ends below 4 GiB, with more fuel than bytes, to a file whose writes fail
  -- with -1 or write some of their bytes: it ends, and never reads past the end of its block or fails
  -- its assertion. It returns 0 with each byte of the range the known one for its place in the file, or
  -- -1 with this for a part of the range that starts where the range does. Other bytes do not change.
  pub write_data-Writes :
      (fuel size : ℕ)
      → offset + size < 4294967296
      → size < fuel
      → Writes pwrite at offset v size (write_data pwrite offset fuel size v)
  unfolding write_data
  write_data-Writes fuel size small enough =
      Ends-Writes size (write_loops pwrite offset fuel size v).0
        (write_loops pwrite offset fuel size v).1 (write_loops-Ends fuel size small enough)
