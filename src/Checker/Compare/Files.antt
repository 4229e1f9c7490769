-- ===== src/Checker/Compare/Files.antt =====
-- `compare_entries_at_path` and `compare_file_contents` of src/checker/DiskContents.cpp: when they
-- find one file to be the same on both disks.
use panda_scratchpad.Base.{
  ℕ, ◌+◌, ◌≤◌, ◌≡◌, refl, ap, ◌↔◌, inl, inr, true, false, Option, some, [], ◌∷◌, ◌++◌, arith,
  Bool-cases, Option-cases, length, take, drop, ◌==◌, take_prefix, length-take, length-drop, leb,
}
use mathlib.Core.Option
use panda_scratchpad.Base.Int.{pos}
use panda_scratchpad.Base.Words.{Bytes}
use panda_scratchpad.Base.Texts.{c_str, text_eq, text_eq_iff, codes, c_str_nul}
use panda_scratchpad.Base.Outcome.{ok, Returns, Returns-mono}
use panda_scratchpad.DiskMod.{Stat}
use panda_scratchpad.Checker.{
  Os, FileAttributes, DiskContents, s_isreg, new_attributes, set_stat_attr, set_md5sum,
  compare_stat_attr, compare_md5sum, is_regular_file, first_word,
}
use panda_scratchpad.Checker.Scan.Depth.{HasSums}
use panda_scratchpad.Checker.Compare.{
  Diff, base_path, compare_sums, compare_paths, compare_entries_at_path, read_segment,
  compare_segments, compare_file_contents,
}
use panda_scratchpad.Checker.Compare.Agreement.{compare_stat_attr_iff}

abbrev pub sum_at : Os → Bytes → Option Bytes
sum_at os path = Option.map first_word (os.popen (codes "md5sum " ++ path))

-- Both paths have the same attributes, and the same sum if they are regular files.
abbrev pub SameFile : Os → Bytes → Bytes → Type 0
SameFile os base compare =
    (a : Stat) × (os.stat base ≡ some a)
    × (os.stat compare ≡ some a)
    × (s_isreg a.st_mode ≡ true → sum_at os base ≡ sum_at os compare)

set_md5sum_lem :
    (os : Os) (path : Bytes) (fa : FileAttributes)
    → HasSums os
    → (w : Bytes) × (sum_at os path ≡ some w)
      × (set_md5sum os path fa ≡ ok (record fa { md5sum = w }))
unfolding set_md5sum
set_md5sum_lem os path fa sums =
    let (out, e, some_word, fits) = sums path in
    let n : ℕ = length (first_word out) in
    let a : (n == 0) ≡ false = ground arith in
    let b : leb 100 n ≡ false = ground arith in (first_word out, rw e, rw (e, set_md5sum, a, b))

compare_sums_lem :
    (os : Os) (st_ino : ℕ) (path base compare : Bytes) (a b : FileAttributes) (diff : Diff)
    → HasSums os
    → Returns
        (λ r. (r.0 ≡ true) ↔ (sum_at os base ≡ sum_at os compare))
        (compare_sums os st_ino path base compare a b diff)
unfolding compare_sums compare_md5sum
compare_sums_lem os st_ino path base compare a b diff sums =
    let (v, e, f) = set_md5sum_lem os base a sums in
    let (w, g, h) = set_md5sum_lem os compare b sums in
    let both : v ≡ w → sum_at os base ≡ sum_at os compare = λ x. cc in
    elim (Bool-cases (text_eq v w)) [
      | inl q ↦ rw (f, h, compare_sums, q) (λ _. both ((text_eq_iff v w).0 q), λ _. refl)
      | inr q ↦
          rw (f, h, compare_sums, q)
            (λ n. absurd (ground arith), λ s. absurd (ground (arith, text_eq_iff v w, s, e, g)))
    ]

-- Both paths can be stated.
compare_paths_stated :
    (os : Os) (st_ino : ℕ) (path base compare : Bytes) (diff : Diff) (a b : Stat)
    → HasSums os
    → os.stat base ≡ some a
    → os.stat compare ≡ some b
    → Returns
        (λ r. (r.0 ≡ true) ↔ SameFile os base compare)
        (compare_paths os st_ino path base compare diff)
unfolding compare_paths is_regular_file
compare_paths_stated os st_ino path base compare diff a b sums e f =
    elim (Bool-cases (compare_stat_attr fa b)) [
      | inr q ↦
          rw (compare_paths, e, f, mine, theirs, q)
            (
              λ h. absurd (ground arith),
              λ s. absurd (ground (arith, q, e, f, compare_stat_attr_iff fa b, s)),
            )
      | inl q ↦ elim (Bool-cases (s_isreg a.st_mode)) [
        | inr r ↦
            rw (compare_paths, e, f, mine, theirs, q, r)
              (λ _. (a, refl, same q, λ k. absurd (ground (arith, k, r))), λ _. refl)
        | inl r ↦
            rw (compare_paths, e, f, mine, theirs, q, r)
              (Returns-mono _ _ (compare_sums os st_ino path base compare fa fb diff)
                (λ x h.
                  (λ t. (a, refl, same q, λ _. h.0 t), λ s. h.1 (s.3 (ground (arith, s.1, r)))))
                (compare_sums_lem os st_ino path base compare fa fb diff sums))
      ]
    ]
  where
    fa : FileAttributes
    fa = record (new_attributes st_ino) { stat_attr = a }

    fb : FileAttributes
    fb = record (new_attributes st_ino) { stat_attr = b }

    mine : set_stat_attr os base false (new_attributes st_ino) ≡ fa
    mine = rw (e, set_stat_attr)

    theirs : set_stat_attr os compare false (new_attributes st_ino) ≡ fb
    theirs = rw (f, set_stat_attr)

    same : compare_stat_attr fa b ≡ true → some b ≡ some a
    same q = let it : a ≡ b = (compare_stat_attr_iff fa b).0 q in rw it

compare_paths-SameFile :
    (os : Os) (st_ino : ℕ) (path base compare : Bytes) (diff : Diff)
    → HasSums os
    → Returns
        (λ r. (r.0 ≡ true) ↔ SameFile os base compare)
        (compare_paths os st_ino path base compare diff)
unfolding compare_paths is_regular_file
compare_paths-SameFile os st_ino path base compare diff sums = elim (Option-cases (os.stat base)) [
  | inl e ↦ rw (compare_paths, e) (λ h. absurd (ground arith), λ s. absurd (ground (arith, e, s.1)))
  | inr (a, e) ↦ elim (Option-cases (os.stat compare)) [
    | inl f ↦
        rw (compare_paths, e, f) (λ h. absurd (ground arith), λ s. absurd (ground (arith, f, s.2)))
    | inr (b, f) ↦ compare_paths_stated os st_ino path base compare diff a b sums e f
  ]
]

module _ (os : Os) (disk other : DiskContents) (path : Bytes) (diff : Diff) where
  -- For two disks with different paths, on a system on which each path has a sum: the comparison of a
  -- path returns, and it is true exactly if the path can be stated on both disks, with the same
  -- attributes, and the same sum if it is a regular file.
  pub compare_entries_at_path-SameFile :
      (st_ino : ℕ)
      → HasSums os
      → text_eq disk.disk_path other.disk_path ≡ false
      → Returns
          (λ r. (r.0 ≡ true) ↔ SameFile os (base_path ++ path) (other.mount_point ++ path))
          (compare_entries_at_path os st_ino disk other path diff)
  unfolding compare_entries_at_path
  compare_entries_at_path-SameFile st_ino sums differ =
      rw (compare_entries_at_path, differ)
        (compare_paths-SameFile os st_ino path (base_path ++ path) (other.mount_point ++ path) diff
          sums)

-- What is read of a file that reaches beyond the segment.
read_segment_inside :
    (fresh bytes : Bytes) (offset n : ℕ)
    → offset + n ≤ length bytes
    → read_segment fresh bytes (pos offset) n ≡ take n (drop offset bytes) ++ 0 ∷ []
unfolding read_segment
read_segment_inside fresh bytes offset n h =
    let s : Bytes = take n (drop offset bytes) in
    let full : length s ≡ n =
      omega (arith, length-take n (drop offset bytes), length-drop offset bytes) in
    ap (λ t. t ++ 0 ∷ []) (take_prefix n s (drop (length s) fresh) full)

module _ (os : Os) (fresh other_fresh : ℕ → Bytes) (disk other : DiskContents) (path : Bytes)
    (offset n : ℕ) (diff : Diff) (f1 f2 : Bytes) where
  -- For two disks with different paths, and a file that can be read on both and that reaches to the
  -- end of the segment on both: the comparison of the segment returns, and it is true exactly if the
  -- segments are the same up to the first NUL in them.
  pub compare_file_contents-c_str :
      (a b : Stat)
      → text_eq disk.disk_path other.disk_path ≡ false
      → os.stat (base_path ++ path) ≡ some a
      → os.stat (other.mount_point ++ path) ≡ some b
      → os.read_file (base_path ++ path) ≡ some f1
      → os.read_file (other.mount_point ++ path) ≡ some f2
      → offset + n ≤ length f1
      → offset + n ≤ length f2
      → Returns
          (λ r. (r.0 ≡ true) ↔ (c_str (take n (drop offset f1)) ≡ c_str (take n (drop offset f2))))
          (compare_file_contents os fresh other_fresh disk other path (pos offset) (pos n) diff)
  unfolding compare_file_contents compare_segments
  compare_file_contents-c_str a b differ e f g h k l =
      let v : Bytes = c_str (take n (drop offset f1)) in
      let w : Bytes = c_str (take n (drop offset f2)) in
      let seg1 : c_str (read_segment (fresh (n + 1)) f1 (pos offset) n) ≡ v =
        rw (read_segment_inside (fresh (n + 1)) f1 offset n k)
          (c_str_nul (take n (drop offset f1)) []) in
      let seg2 : c_str (read_segment (other_fresh (n + 1)) f2 (pos offset) n) ≡ w =
        rw (read_segment_inside (other_fresh (n + 1)) f2 offset n l)
          (c_str_nul (take n (drop offset f2)) []) in
      elim (Bool-cases (text_eq v w)) [
        | inl q ↦
            rw (compare_file_contents, differ, e, f, compare_segments, g, h, seg1, seg2, q)
              (λ _. (text_eq_iff v w).0 q, λ _. refl)
        | inr q ↦
            rw (compare_file_contents, differ, e, f, compare_segments, g, h, seg1, seg2, q)
              (λ t. absurd (ground arith), λ t. absurd (ground (arith, text_eq_iff v w, t, q)))
      ]
