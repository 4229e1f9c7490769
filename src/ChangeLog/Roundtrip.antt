-- ===== src/ChangeLog/Roundtrip.antt =====
-- The whole way from the recorder's `mods_` to the tester's (src/wrapper/wrapper.cpp and
-- src/utils/Tester.cpp).
use panda_scratchpad.Base.{
  ℕ, zero, suc, ◌+◌, ◌≤◌, ◌<◌, ◌≡◌, refl, ◌∙◌, ap, true, List, [], ◌∷◌, ◌++◌, map, arith, length,
  length-append, append_assoc, append-nil,
}
use mathlib.Core.List.{foldl}
use panda_scratchpad.Base.Words.{Bytes}
use panda_scratchpad.Base.Outcome.{ok}
use panda_scratchpad.Base.Memory.{Allocator}
use panda_scratchpad.DiskMod.{DiskMod}
use panda_scratchpad.DiskMod.Layout.{layout, IsStorable}
use panda_scratchpad.DiskMod.Serialize.{serialize-layout, length-layout}
use panda_scratchpad.DiskMod.Roundtrip.{wire_view}
use panda_scratchpad.ChangeLog.{
  FileIo, IsReliable, add_mod, serialize_mods, change_loop, get_change_data,
}
use panda_scratchpad.ChangeLog.Groups.{checkpoint_groups, foldl-add_mod_nil}
use panda_scratchpad.ChangeLog.Writing.{write_whole-append}
use panda_scratchpad.ChangeLog.Reading.{read_entry-layout}

-- Every DiskMod can be stored, and the two allocations that it takes succeed.
abbrev pub AllStorable : Allocator → List DiskMod → Type 0
AllStorable mem [] = Unit {0}
AllStorable mem (m ∷ ms) =
    IsStorable m
    × (mem.can_alloc (length (layout m)) ≡ true)
    × (mem.can_alloc m.file_mod_len ≡ true)
    × AllStorable mem ms

abbrev pub layouts : List DiskMod → Bytes
layouts [] = []
layouts (m ∷ ms) = layout m ++ layouts ms

module _ (mem : Allocator) (io : FileIo) (r : IsReliable io) where
  -- `RecordCmFsOps::Serialize` appends the layouts of the DiskMods to the file, in order, however
  -- the system cuts the writes, and succeeds.
  pub serialize_mods-layouts :
      (ms : List DiskMod) (file : Bytes)
      → AllStorable mem ms
      → serialize_mods mem io ms file ≡ (ok tt, file ++ layouts ms)
  unfolding serialize_mods
  serialize_mods-layouts [] file h = rw append-nil
  serialize_mods-layouts (m ∷ ms) file (s, can, can', h) = rw (
    serialize-layout mem m s can,
    write_whole-append mem io r (length (layout m)) (layout m) file refl,
    serialize_mods-layouts ms (file ++ layout m) h,
    append_assoc,
  )

  change_loop-layouts :
      (ms : List DiskMod) (fuel : ℕ) (groups : List (List DiskMod))
      → AllStorable mem ms
      → length (layouts ms) < fuel
      → change_loop mem io fuel (layouts ms) groups
        ≡ (ok tt, foldl add_mod groups (map wire_view ms))
  unfolding change_loop
  change_loop-layouts [] zero groups h f = absurd (omega arith)
  change_loop-layouts [] (suc fuel) groups h f = rw (r.read_end 8, change_loop)
  change_loop-layouts (m ∷ ms) zero groups h f = absurd (omega arith)
  change_loop-layouts (m ∷ ms) (suc fuel) groups (s, can, can', h) f =
      let long : length (layouts (m ∷ ms)) ≡ length (layout m) + length (layouts ms) =
        length-append (layout m) (layouts ms) in
      let size : 12 ≤ length (layout m) = omega (arith, length-layout m s) in
      rw
        (
          r.read_size (length (layouts (m ∷ ms))) (omega arith),
          change_loop,
          read_entry-layout mem io r m (layouts ms) s can can',
        )
        (change_loop-layouts ms fuel (add_mod groups (wire_view m)) h (omega arith))

  -- What the tester reads from the file that the recorder wrote: no error, and for `mods_` the
  -- recorded DiskMods as far as the format keeps them, in order, grouped by the checkpoints.
  pub get_change_data-serialize_mods :
      (ms : List DiskMod)
      → AllStorable mem ms
      → get_change_data mem io [] (serialize_mods mem io ms []).1
        ≡ (ok tt, checkpoint_groups (map wire_view ms))
  unfolding get_change_data
  get_change_data-serialize_mods ms h = rw (serialize_mods-layouts ms [] h) (
      change_loop-layouts ms (length (layouts ms) + 1) [] h (omega arith)
      ∙ ap (λ g. (ok tt, g)) (foldl-add_mod_nil (map wire_view ms)))
