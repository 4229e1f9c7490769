-- ===== src/Workload/Parts.antt =====
-- How `WriteData` of src/wrapper/workload.cpp divides a range among its loops.
use panda_scratchpad.Base.{
  ℕ, ◌+◌, ◌-◌, ◌%◌, ◌≤◌, ◌<◌, ◌≡◌, ◌≢◌, refl, ◌⊎◌, inl, inr, true, false, arith, Bool-cases, ltb,
  leb, ◌==◌, if◌then◌else◌, ltb-eq_false,
}
use panda_scratchpad.Base.Words.{u32}
use panda_scratchpad.Workload.{rounded_offset, rounded_diff, aligned_size, round_down}

rounded_diff_lem :
    (offset : ℕ) → offset < 4294967296 → rounded_diff offset ≡ (4096 - offset % 4096) % 4096
rounded_diff_lem offset h = omega arith

rounded_offset_test :
    (offset : ℕ)
    → offset < 4294967296
    → (rounded_offset offset == offset) ≡ (rounded_diff offset == 0)
rounded_offset_test offset h = ground arith

-- The bytes that the first loop writes.
abbrev pub first_part : (offset size : ℕ) → ℕ
first_part offset size = if ltb size (rounded_diff offset) then size else rounded_diff offset

pub record Parts (offset size t n : ℕ) : Type 0 where
  pub within : t + n ≤ size
  pub near : size < t + n + 4096
  pub in_page : t + offset % 4096 ≤ 4096
  pub pages : n % 4096 ≡ 0
  pub start : 0 < n → (offset + t) % 4096 ≡ 0
  pub last : t + n ≢ size → (offset + (t + n)) % 4096 ≡ 0
  pub none_unaligned : (rounded_offset offset == offset) ≡ true → t ≡ 0

pages-Parts :
    (offset size d : ℕ)
    → d ≡ (4096 - offset % 4096) % 4096
    → ((rounded_offset offset == offset) ≡ true → d ≡ 0)
    → 4096 ≤ size
    → offset + size < 4294967296
    → Parts offset size d (round_down (u32 (size + 4294967296 - d)))
pages-Parts offset size d e z big h =
    let n : u32 (size + 4294967296 - d) ≡ size - d = omega arith in
    rw n (record {
      within = omega arith;
      near = omega arith;
      in_page = omega arith;
      pages = omega arith;
      start = λ _. omega arith;
      last = λ _. omega arith;
      none_unaligned = z;
    })

few-Parts :
    (offset size d t : ℕ)
    → d ≡ (4096 - offset % 4096) % 4096
    → ((rounded_offset offset == offset) ≡ true → d ≡ 0)
    → size < 4096
    → ((size < d) × (t ≡ size)) ⊎ ((d ≤ size) × (t ≡ d))
    → Parts offset size t 0
few-Parts offset size d t e z few (inl (h, i)) = record {
  within = omega arith;
  near = omega arith;
  in_page = omega arith;
  pages = omega arith;
  start = λ p. absurd (omega arith);
  last = λ p. absurd (p (omega arith));
  none_unaligned = λ q. absurd (omega (arith, z q));
}
few-Parts offset size d t e z few (inr (h, i)) = record {
  within = omega arith;
  near = omega arith;
  in_page = omega arith;
  pages = omega arith;
  start = λ p. absurd (omega arith);
  last = λ p. omega arith;
  none_unaligned = λ q. omega (arith, z q);
}

pub first_part-Parts :
    (offset size : ℕ)
    → offset < 4294967296
    → offset + size < 4294967296
    → Parts offset size (first_part offset size) (aligned_size offset size)
first_part-Parts offset size o h =
    let d = rounded_diff offset in
    let e : d ≡ (4096 - offset % 4096) % 4096 = rounded_diff_lem offset o in
    let z : (rounded_offset offset == offset) ≡ true → d ≡ 0 =
      λ q. ground (arith, rounded_offset_test offset o) in
    elim (Bool-cases (leb 4096 size)) [
      | inl big ↦
          let not_less : ltb size d ≡ false = ltb-eq_false size d (ground arith) in
          rw (big, not_less) (pages-Parts offset size d e z (ground arith) h)
      | inr few ↦ elim (Bool-cases (ltb size d)) [
        | inl l ↦
            rw (few, l) (few-Parts offset size d size e z (ground arith) (inl (ground arith, refl)))
        | inr l ↦
            rw (few, l) (few-Parts offset size d d e z (ground arith) (inr (ground arith, refl)))
      ]
    ]
