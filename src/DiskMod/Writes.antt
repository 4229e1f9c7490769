-- ===== src/DiskMod/Writes.antt =====
-- What each of the serializers of src/wrapper/DiskMod.cpp writes, and where.
use panda_scratchpad.Base.{
  ℕ, ◌+◌, ◌≤◌, ◌<◌, ◌≡◌, ◌∙◌, false, Option, none, some, [], ◌++◌, arith, if◌then◌else◌,
  leb-eq_true, length, drop, length-append, take_all, append-nil, append_assoc, drop-drop,
  length-drop, Bool-cases, inl, inr,
}
use panda_scratchpad.Base.Words.{Bytes, u32, u64, to_be, length-to_be}
use panda_scratchpad.Base.Outcome.{ok}
use panda_scratchpad.Base.Memory.{memcpy_at, memcpy_two}
use panda_scratchpad.DiskMod.{
  DiskMod, is_marker, ends_at_path, is_range_only, mod_data, serialize_data_range, serialize_rest,
  serialize_change,
}
use panda_scratchpad.DiskMod.Layout.{path_bytes, data_bytes, range_bytes, change_bytes, IsStorable}
use panda_scratchpad.DiskMod.Fields.{
  Writes, length-path_bytes, serialize_change_header-Writes, check_res-ok,
}

module _ (dm : DiskMod) (s : IsStorable dm) where
  mod_data-ok :
      (d : Option Bytes) (len : ℕ)
      → length (data_bytes d) ≡ len
      → mod_data d len ≡ ok (data_bytes d)
  unfolding mod_data
  mod_data-ok none len e = ground arith
  mod_data-ok (some bs) len e =
      rw (leb-eq_true len (length bs) (omega arith), take_all len bs (omega arith))

  length-range_bytes : length (range_bytes dm) ≡ 16
  length-range_bytes =
      length-append (to_be 8 dm.file_mod_location) (to_be 8 dm.file_mod_len)
      ∙ omega (arith, length-to_be)

  abbrev rest_bytes : Bytes
  rest_bytes = range_bytes dm ++ (if is_range_only dm then [] else data_bytes dm.file_mod_data)

  pub length-rest_bytes :
      length rest_bytes ≡ (if is_range_only dm then 16 else 16 + dm.file_mod_len)
  length-rest_bytes =
      length-append (range_bytes dm) (if is_range_only dm then [] else data_bytes dm.file_mod_data)
      ∙ rw length-range_bytes (elim (Bool-cases (is_range_only dm)) [
        | inl range_only ↦ rw range_only
        | inr with_data ↦ rw with_data (rw (s.whole_data with_data))
      ])

  serialize_data_range-Writes : Writes (λ buf off. serialize_data_range buf off dm) rest_bytes
  unfolding serialize_data_range
  serialize_data_range-Writes xs ys off e h =
      let n : length rest_bytes
          ≡ 16 + length (if is_range_only dm then [] else data_bytes dm.file_mod_data) =
        length-append (range_bytes dm)
          (if is_range_only dm then [] else data_bytes dm.file_mod_data)
        ∙ omega (arith, length-range_bytes) in
      let loc : u64 dm.file_mod_location ≡ dm.file_mod_location = omega (arith, s.location_fits) in
      let len : u64 dm.file_mod_len ≡ dm.file_mod_len = omega (arith, s.short_data) in
      rw (loc, len)
        (memcpy_two xs ys (to_be 8 dm.file_mod_location) (to_be 8 dm.file_mod_len) off (off + 8) _ e
            (omega (arith, length-to_be)) (omega (arith, length-range_bytes))
          ∙ elim (Bool-cases (is_range_only dm)) [
            | inl range_only ↦ rw (range_only, append-nil) (rw length-range_bytes)
            | inr with_data ↦
                let m : length rest_bytes ≡ 16 + dm.file_mod_len =
                  n ∙ rw with_data (omega (arith, s.whole_data with_data)) in
                let fits : length (data_bytes dm.file_mod_data)
                    ≤ length (drop (length (range_bytes dm)) ys) =
                  omega (
                    arith,
                    length-drop (length (range_bytes dm)) ys,
                    length-range_bytes,
                    s.whole_data with_data,
                  ) in
                let sum : u64 (16 + dm.file_mod_len) ≡ 16 + dm.file_mod_len =
                  omega (arith, s.short_data) in
                rw
                  (with_data, mod_data-ok dm.file_mod_data dm.file_mod_len (s.whole_data with_data))
                  (rw
                    (memcpy_at (xs ++ range_bytes dm) (drop (length (range_bytes dm)) ys)
                      (data_bytes dm.file_mod_data) (off + 16)
                      (omega (arith, length-append xs (range_bytes dm), length-range_bytes)) fits)
                    (rw (
                      length-append (range_bytes dm) (data_bytes dm.file_mod_data),
                      drop-drop,
                      append_assoc xs (range_bytes dm) (data_bytes dm.file_mod_data),
                      sum,
                      s.whole_data with_data,
                      length-range_bytes,
                    )))
          ])

  rest_bytes_small : length rest_bytes < 2147483648
  rest_bytes_small = rw length-rest_bytes (ground (arith, s.short_data))

  serialize_rest-ok :
      (xs ys : Bytes) (off : ℕ)
      → dm.directory_mod ≡ false
      → off ≡ length xs
      → length rest_bytes ≤ length ys
      → serialize_rest (xs ++ ys) off dm ≡ ok ((xs ++ rest_bytes) ++ drop (length rest_bytes) ys)
  unfolding serialize_rest
  serialize_rest-ok xs ys off file e h =
      simp file (rw (serialize_data_range-Writes xs ys off e h, check_res-ok _ _ rest_bytes_small))

  abbrev change_size : ℕ
  change_size =
      if is_marker dm.mod_type
      then 0
      else if ends_at_path dm.mod_type
      then length dm.path + 2
      else length dm.path + 2 + length rest_bytes

  pub length-change_bytes : length (change_bytes dm) ≡ change_size
  length-change_bytes =
      ground (arith, length-path_bytes dm, length-append (path_bytes dm) rest_bytes)

  pub serialize_change-ok :
      (xs ys : Bytes) (off : ℕ)
      → off ≡ length xs
      → length xs ≡ 12
      → length (change_bytes dm) ≤ length ys
      → serialize_change (xs ++ ys) off dm
        ≡ ok ((xs ++ change_bytes dm) ++ drop (length (change_bytes dm)) ys)
  unfolding serialize_change
  serialize_change-ok xs ys off e twelve h = elim (Bool-cases (is_marker dm.mod_type)) [
    | inl marker ↦ rw (marker, append-nil)
    | inr not_marker ↦
        let small : length (path_bytes dm) < 2147483648 =
          omega (arith, length-path_bytes dm, s.short_path) in
        let fits : length (path_bytes dm) ≤ length ys =
          ground (arith, length-change_bytes, length-path_bytes dm) in
        elim (Bool-cases (ends_at_path dm.mod_type)) [
          | inl short ↦ rw (
            not_marker,
            short,
            serialize_change_header-Writes dm s.short_path xs ys off e fits,
            check_res-ok _ _ small,
          )
          | inr long ↦
              let whole : length (path_bytes dm) + length rest_bytes ≤ length ys =
                ground (arith, length-change_bytes, length-path_bytes dm) in
              let next : u32 (off + length (path_bytes dm)) ≡ length (xs ++ path_bytes dm) =
                omega
                  (arith, length-append xs (path_bytes dm), length-path_bytes dm, s.short_path) in
              rw
                (
                  not_marker,
                  long,
                  serialize_change_header-Writes dm s.short_path xs ys off e fits,
                  check_res-ok _ _ small,
                )
                (serialize_rest-ok (xs ++ path_bytes dm) (drop (length (path_bytes dm)) ys)
                    (u32 (off + length (path_bytes dm))) (s.not_directory (rw (not_marker, long)))
                    next (omega (arith, length-drop (length (path_bytes dm)) ys))
                  ∙ rw (
                    length-append (path_bytes dm) rest_bytes,
                    drop-drop,
                    append_assoc xs (path_bytes dm) rest_bytes,
                  ))
        ]
  ]
