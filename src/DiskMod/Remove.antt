-- ===== src/DiskMod/Remove.antt =====
-- `Serialize` of removals (src/wrapper/DiskMod.cpp), whose size `GetSerializeSize` computes up to the
-- path.
use panda_scratchpad.Base.{
  ℕ, ◌+◌, ◌<◌, ◌≡◌, refl, ◌∙◌, true, false, [], ◌++◌, arith, length, drop, length-append,
  length-drop, Bool-cases, inl, inr,
}
use panda_scratchpad.Base.Words.{Bytes, u32, u64, to_be, length-to_be}
use panda_scratchpad.Base.Outcome.{fault}
use panda_scratchpad.Base.Memory.{Allocator, memcpy, memcpy_at}
use panda_scratchpad.DiskMod.{
  DiskMod, remove_mod, is_marker, ends_at_path, get_serialize_size, serialize_data_range,
  serialize_rest, serialize_change, serialize,
}
use panda_scratchpad.DiskMod.Layout.{header_bytes, path_bytes}
use panda_scratchpad.DiskMod.Fields.{
  length-header_bytes, serialize_header-Writes, length-path_bytes, serialize_change_header-Writes,
  check_res-ok,
}

memcpy_past :
    (buf : Bytes) (off : ℕ) (bs : Bytes) → length buf < off + length bs → memcpy buf off bs ≡ fault
unfolding memcpy
memcpy_past buf off bs h = ground arith

module _ (dm : DiskMod) (removes : dm.mod_type ≡ remove_mod)
    (short : length dm.path < 2147483600) where
  remove_size : get_serialize_size dm ≡ 14 + length dm.path
  unfolding get_serialize_size
  remove_size = rw removes (omega (arith, short))

  serialize_rest_past :
      (buf : Bytes) (off : ℕ) → length buf < off + 8 → serialize_rest buf off dm ≡ fault
  unfolding serialize_rest serialize_data_range
  serialize_rest_past buf off h = elim (Bool-cases dm.directory_mod) [
    | inl dir ↦ rw (dir, serialize_rest)
    | inr file ↦
        rw (file, serialize_rest)
          (rw (
            memcpy_past buf off (to_be 8 (u64 dm.file_mod_location))
              (omega (arith, length-to_be 8 (u64 dm.file_mod_location)))))
  ]

  serialize_change_past :
      (xs ys : Bytes) (off : ℕ)
      → off ≡ 12
      → length xs ≡ 12
      → length ys ≡ 2 + length dm.path
      → serialize_change (xs ++ ys) off dm ≡ fault
  unfolding serialize_change
  serialize_change_past xs ys off e twelve more =
      let marker : is_marker dm.mod_type ≡ false = rw removes in
      let long : ends_at_path dm.mod_type ≡ false = rw removes in
      let header : Bytes = xs ++ path_bytes dm in
      let left : Bytes = drop (length (path_bytes dm)) ys in
      rw
        (
          marker,
          long,
          serialize_change_header-Writes dm short xs ys off (omega arith)
              (omega (arith, length-path_bytes dm)),
          check_res-ok (header ++ left) (length (path_bytes dm))
              (omega (arith, length-path_bytes dm)),
        )
        (serialize_rest_past (header ++ left) (u32 (off + length (path_bytes dm))) (
          omega (
            arith,
            length-append header left,
            length-append xs (path_bytes dm),
            length-drop (length (path_bytes dm)) ys,
            length-path_bytes dm,
          )))

  -- `Serialize` of a removal whose path is shorter than about 2 GiB (`short`), and whose allocation
  -- succeeds, is a fault: it writes past the end of its block, or meets the failed assertion if the
  -- removal is marked as a directory's.
  pub serialize-remove_mod :
      (mem : Allocator) → mem.can_alloc (get_serialize_size dm) ≡ true → serialize mem dm ≡ fault
  unfolding serialize
  serialize-remove_mod mem can =
      let size : ℕ = 14 + length dm.path in
      let block : Bytes = mem.fresh size in
      let rest : Bytes = drop (length (to_be 8 size)) block in
      let left : length rest ≡ 6 + length dm.path =
        length-drop (length (to_be 8 size)) block
        ∙ omega (arith, length-to_be, mem.length-fresh size) in
      let front : Bytes = to_be 8 size ++ header_bytes dm in
      let behind : Bytes = drop (length (header_bytes dm)) rest in
      rw
        (
          can,
          remove_size,
          memcpy_at [] block (to_be 8 size) 0 refl
              (omega (arith, length-to_be, mem.length-fresh size)),
          serialize_header-Writes dm (to_be 8 size) rest 8 (omega (arith, length-to_be))
              (omega (arith, length-header_bytes dm)),
          check_res-ok (front ++ behind) (length (header_bytes dm))
              (omega (arith, length-header_bytes dm)),
        )
        (rw (
          serialize_change_past front behind (u32 (8 + length (header_bytes dm)))
            (omega (arith, length-header_bytes dm))
            (omega (
              arith,
              length-append (to_be 8 size) (header_bytes dm),
              length-header_bytes dm,
              length-to_be,
            ))
            (omega (arith, length-drop (length (header_bytes dm)) rest, length-header_bytes dm))))
