-- ===== src/Workload/Filled.antt =====
-- What src/wrapper/workload.cpp relies on of `pwrite`, and one write of a part of its block.
use panda_scratchpad.Base.{
  ℕ, ◌+◌, ◌-◌, ◌%◌, ◌≤◌, ◌<◌, ◌≡◌, refl, ◌∙◌, ◌⊎◌, inl, inr, true, some, arith, sym, ap, Bool-cases,
  ltb, length, get_elem?, take, drop, length-take, length-drop, leb, leb-eq_true, if◌then◌else◌,
}
use panda_scratchpad.Base.Int.{ℤ, pos, negsuc, is_neg, to_int, to_int_pos}
use panda_scratchpad.Base.Words.{Bytes}
use panda_scratchpad.Base.Outcome.{Outcome, ok, failed, fault, stuck}
use panda_scratchpad.Base.Exec.{Exec, ◌>>=◌, pure}
use panda_scratchpad.Workload.{Pwrite, test_data_block, block_part, write_part}
use panda_scratchpad.Workload.Block.{letter, get_elem?-block, letter-eq, length_test_data_block}

-- A file behind `pwrite`. A write returns -1 and changes nothing, or writes some of its bytes, one at
-- least if there are any.
pub record IsFile (W : Type 0) (pwrite : Pwrite W) (at : ℕ → W → ℕ) : Type 0 where
  pub result :
      (bs : Bytes) (off : ℕ) (w : W)
      → (((pwrite bs off w).0 ≡ negsuc 0) × ((pwrite bs off w).1 ≡ w))
        ⊎ ((k : ℕ) × ((pwrite bs off w).0 ≡ pos k)
            × (k ≤ length bs)
            × (0 < length bs → 0 < k)
            × ((i : ℕ) → i < k → get_elem? bs i ≡ some (at (off + i) (pwrite bs off w).1))
            × ((p : ℕ) → (p < off) ⊎ (off + k ≤ p) → at p (pwrite bs off w).1 ≡ at p w))

-- From `lo` up to `hi` the file `w` holds the known bytes, and elsewhere what `v` holds.
pub record Filled {W : Type 0} (at : ℕ → W → ℕ) (v w : W) (lo hi : ℕ) : Type 0 where
  pub known : (p : ℕ) → lo ≤ p → p < hi → at p w ≡ letter p
  pub kept : (p : ℕ) → (p < lo) ⊎ (hi ≤ p) → at p w ≡ at p v

small_error : to_int (negsuc 0) ≡ negsuc 0
unfolding to_int
small_error = refl

module _ {W : Type 0} (pwrite : Pwrite W) (at : ℕ → W → ℕ) (offset : ℕ) (v : W) where
  -- How a loop ends: with `goal` known bytes in the file, or with -1 and some of them.
  abbrev pub Ends : (goal : ℕ) → Outcome (ℤ ⊎ ℕ) × W → Type 0
  Ends goal (ok (inr n), w) = (n ≡ goal) × Filled at v w offset (offset + goal)
  Ends goal (ok (inl res), w) =
      (res ≡ negsuc 0) × ((n : ℕ) × (n ≤ goal) × Filled at v w offset (offset + n))
  Ends goal (failed, w) = ⊥
  Ends goal (fault, w) = ⊥
  Ends goal (stuck, w) = ⊥

  -- How `WriteData` ends: with 0 and the known bytes in the whole range, or with -1 and the known bytes
  -- in a part of the range that starts where the range does. No other byte has changed.
  abbrev pub Writes : (size : ℕ) → Outcome ℤ × W → Type 0
  Writes size (ok res, w) =
      ((res ≡ pos 0) × Filled at v w offset (offset + size))
      ⊎ ((res ≡ negsuc 0) × ((n : ℕ) × (n ≤ size) × Filled at v w offset (offset + n)))
  Writes size (failed, w) = ⊥
  Writes size (fault, w) = ⊥
  Writes size (stuck, w) = ⊥

  -- The bytes of a part of the block are those that belong behind the bytes that are there.
  Filled-more :
      (bs : Bytes) (w w' : W) (start num k : ℕ)
      → ((i : ℕ) → i < k → get_elem? bs i ≡ some (letter (start + i)))
      → start % 32 ≡ (offset + num) % 32
      → ((i : ℕ) → i < k → get_elem? bs i ≡ some (at (offset + num + i) w'))
      → ((p : ℕ) → (p < offset + num) ⊎ (offset + num + k ≤ p) → at p w' ≡ at p w)
      → Filled at v w offset (offset + num)
      → Filled at v w' offset (offset + (num + k))
  Filled-more bs w w' start num k block phase written kept before = record {
    known = λ p h l. elim (Bool-cases (ltb p (offset + num))) [
      | inl q ↦ kept p (inl (ground arith)) ∙ before.known p h (ground arith)
      | inr q ↦
          let i : ℕ = p - (offset + num) in
          let e : offset + num + i ≡ p = ground arith in
          let same : letter (start + i) ≡ letter p = letter-eq (start + i) p (omega arith) in
          let there : some (at (offset + num + i) w') ≡ some (letter (start + i)) =
            sym (written i (ground arith)) ∙ block i (ground arith) in
          let byte : at (offset + num + i) w' ≡ letter (start + i) = cc in
          ap (λ t. at t w') (sym e) ∙ (byte ∙ same)
    ];
    kept = λ p h. elim h [
      | inl l ↦ kept p (inl (omega arith)) ∙ before.kept p (inl l)
      | inr l ↦ kept p (inr (omega arith)) ∙ before.kept p (inr (omega arith))
    ];
  }

  -- A part of the block is written behind the bytes that are there, and the loop goes on if it can.
  pub write_part-Ends :
      (goal start n num : ℕ) (w : W) (next : ℤ → Exec W (ℤ ⊎ ℕ))
      → IsFile W pwrite at
      → start + n ≤ 4096
      → start % 32 ≡ (offset + num) % 32
      → 0 < n
      → num ≤ goal
      → offset + num < 4294967296
      → Filled at v w offset (offset + num)
      → ((k : ℕ) (w' : W)
          → k ≤ n
          → 0 < k
          → Filled at v w' offset (offset + (num + k))
          → Ends goal (next (pos k) w'))
      → Ends goal (
          (write_part pwrite offset start n num >>= λ res.
          if is_neg res then pure (inl res) else next res)
            w)
  unfolding block_part
  write_part-Ends goal start n num w next file inside phase some_bytes num_le small before more =
      let bs : Bytes = take n (drop start test_data_block) in
      let fits : leb (start + n) 4097 ≡ true = leb-eq_true (start + n) 4097 (omega arith) in
      let size : length bs ≡ n = omega (
        arith,
        length-take n (drop start test_data_block),
        length-drop start test_data_block,
        length_test_data_block,
      ) in
      let place : (offset + num) % 4294967296 ≡ offset + num = omega arith in
      elim (file.result bs (offset + num) w) [
        | inl (e, f) ↦ rw (fits, block_part, place, e, f, small_error) (refl, (num, num_le, before))
        | inr (k, e, k_le, k_pos, written, kept) ↦
            rw (fits, block_part, place, e, to_int_pos k (omega (arith, size)))
              (more k (pwrite bs (offset + num) w).1 (omega (arith, size))
                (k_pos (omega (arith, size)))
                (Filled-more bs w (pwrite bs (offset + num) w).1 start num k
                  (λ i l. get_elem?-block start n i inside (omega (arith, size))) phase written kept
                  before))
      ]
