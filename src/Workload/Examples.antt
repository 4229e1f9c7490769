-- ===== src/Workload/Examples.antt =====
-- `WriteData` of src/wrapper/workload.cpp on a file whose writes stop where the disk is full.
use Prim.Native.Nat.{min}
use panda_scratchpad.Base.{
  ℕ, ◌+◌, ◌-◌, ◌≤◌, ◌<◌, ◌≡◌, refl, inl, inr, Option, none, some, true, arith, ◌&&◌, leb, ltb,
  if◌then◌else◌, length, get_elem?, Bool-cases,
}
use panda_scratchpad.Base.Int.{pos, negsuc}
use panda_scratchpad.Base.Words.{Bytes}
use panda_scratchpad.Workload.{Pwrite, write_data}
use panda_scratchpad.Workload.Block.{get_elem?_inside}
use panda_scratchpad.Workload.Filled.{IsFile, Writes}
use panda_scratchpad.Workload.Data.{write_data-Writes}

abbrev File : Type 0
File = ℕ → ℕ

abbrev byte_of : Option ℕ → ℕ
byte_of none = 0
byte_of (some b) = b

abbrev write_at : Bytes → ℕ → ℕ → File → File
write_at bs off k w p =
    if leb off p && ltb p (off + k) then byte_of (get_elem? bs (p - off)) else w p

write_at_inside :
    (bs : Bytes) (off k : ℕ) (w : File) (i : ℕ)
    → k ≤ length bs
    → i < k
    → get_elem? bs i ≡ some (write_at bs off k w (off + i))
write_at_inside bs off k w i h l =
    let (b, e) = get_elem?_inside bs i (omega arith) in
    let back : off + i - off ≡ i = omega arith in
    let here : (leb off (off + i) && ltb (off + i) (off + k)) ≡ true = ground arith in
    rw (here, back, e)

-- A disk that is full at 5000 bytes.
abbrev limited : Pwrite File
limited bs off w =
    if ltb off 5000
    then (pos (min (length bs) (5000 - off)), write_at bs off (min (length bs) (5000 - off)) w)
    else (negsuc 0, w)

limited-IsFile : IsFile File limited (λ p w. w p)
limited-IsFile = record {
  result = λ bs off w. elim (Bool-cases (ltb off 5000)) [
    | inr q ↦ rw q (inl (refl, refl))
    | inl q ↦
        let room : off < 5000 = ground arith in
        let k : ℕ = min (length bs) (5000 - off) in
        rw q (
          inr (
            k,
            refl,
            omega arith,
            λ h. omega arith,
            λ i l. write_at_inside bs off k w i (omega arith) l,
            λ p h. ground arith,
          ))
  ];
}

write_data-Writes_example :
    Writes limited (λ p w. w p) 4000 (λ _. 0) 96 (write_data limited 4000 100 96 (λ _. 0))
write_data-Writes_example =
    write_data-Writes limited (λ p w. w p) limited-IsFile 4000 (λ _. 0) 100 96 (omega arith)
      (omega arith)
