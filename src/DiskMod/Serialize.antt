-- ===== src/DiskMod/Serialize.antt =====
-- `DiskMod::Serialize` of src/wrapper/DiskMod.cpp as a whole, against the layout.
use panda_scratchpad.Base.{
  ℕ, ◌+◌, ◌<◌, ◌≡◌, ◌≢◌, refl, ◌∙◌, true, [], ◌++◌, arith, length, drop, length-append, length-drop,
  append-nil, append_assoc, drop_all,
}
use panda_scratchpad.Base.Words.{Bytes, u32, to_be, length-to_be}
use panda_scratchpad.Base.Outcome.{ok}
use panda_scratchpad.Base.Memory.{Allocator, memcpy_at}
use panda_scratchpad.DiskMod.{
  DiskMod, ModType, create_mod, remove_mod, ends_at_path, sized_to_path, get_serialize_size,
  serialize,
}
use panda_scratchpad.DiskMod.Layout.{header_bytes, change_bytes, layout, IsStorable}
use panda_scratchpad.DiskMod.Fields.{length-header_bytes, serialize_header-Writes, check_res-ok}
use panda_scratchpad.DiskMod.Writes.{length-rest_bytes, length-change_bytes, serialize_change-ok}

sized_to_path-ends_at_path : (t : ModType) → t ≢ remove_mod → sized_to_path t ≡ ends_at_path t
sized_to_path-ends_at_path create_mod h = refl
sized_to_path-ends_at_path remove_mod h = absurd (h refl)
sized_to_path-ends_at_path _ h = refl

module _ (dm : DiskMod) (s : IsStorable dm) where
  -- The size that is computed in advance.
  get_serialize_size_lem : get_serialize_size dm ≡ 12 + length (change_bytes dm)
  unfolding get_serialize_size
  get_serialize_size_lem =
      rw (length-change_bytes dm s, sized_to_path-ends_at_path dm.mod_type s.not_remove)
        (ground (arith, s.short_path, s.short_data, s.not_directory, length-rest_bytes dm s))

  pub length-layout : length (layout dm) ≡ 12 + length (change_bytes dm)
  length-layout =
      let size = 12 + length (change_bytes dm) in
      length-append (to_be 8 size) (header_bytes dm ++ change_bytes dm)
      ∙ omega (
        arith,
        length-append (header_bytes dm) (change_bytes dm),
        length-header_bytes dm,
        length-to_be,
      )

  pub layout_small : length (layout dm) < 18446744073709551616
  layout_small =
      rw (length-layout, length-change_bytes dm s)
        (ground (arith, s.short_path, s.short_data, length-rest_bytes dm s))

module _ (mem : Allocator) (dm : DiskMod) where
  -- On every DiskMod that the format can hold, and where the allocation succeeds, `Serialize` fills its
  -- block, to the last byte, and reports its length. In front is the size of the whole entry, its own 8
  -- bytes included, then the type and the options, where a checkpoint and a sync end. Then come the path
  -- with its NUL and the directory flag, where a creation and an fsync end, the location, the length,
  -- and the data unless the entry only names a range. Numbers are big endian.
  pub serialize-layout :
      IsStorable dm
      → mem.can_alloc (length (layout dm)) ≡ true
      → serialize mem dm ≡ ok (layout dm, length (layout dm))
  unfolding serialize
  serialize-layout s can =
      let size : ℕ = 12 + length (change_bytes dm) in
      let block : Bytes = mem.fresh size in
      let rest : Bytes = drop (length (to_be 8 size)) block in
      let room : length block ≡ size = mem.length-fresh size in
      let left : length rest ≡ 4 + length (change_bytes dm) =
        length-drop (length (to_be 8 size)) block ∙ omega (arith, length-to_be) in
      let can' : mem.can_alloc size ≡ true = rw (← length-layout dm s) can in
      rw
        (
          get_serialize_size_lem dm s,
          can',
          length-layout dm s,
          memcpy_at [] block (to_be 8 size) 0 refl (omega (arith, length-to_be)),
          serialize_header-Writes dm (to_be 8 size) rest 8 (omega (arith, length-to_be))
              (omega (arith, length-header_bytes dm)),
        )
        (rw (
          check_res-ok (to_be 8 size ++ header_bytes dm ++ drop (length (header_bytes dm)) rest)
              (length (header_bytes dm)) (omega (arith, length-header_bytes dm)),
          serialize_change-ok dm s (to_be 8 size ++ header_bytes dm)
              (drop (length (header_bytes dm)) rest) (u32 (8 + length (header_bytes dm)))
              (omega (
                arith,
                length-append (to_be 8 size) (header_bytes dm),
                length-header_bytes dm,
                length-to_be,
              ))
              (omega (
                arith,
                length-append (to_be 8 size) (header_bytes dm),
                length-header_bytes dm,
                length-to_be,
              ))
              (omega (arith, length-drop (length (header_bytes dm)) rest, length-header_bytes dm)),
          drop_all (length (change_bytes dm)) (drop (length (header_bytes dm)) rest)
              (omega (arith, length-drop (length (header_bytes dm)) rest, length-header_bytes dm)),
          append-nil,
          append_assoc,
        ))
