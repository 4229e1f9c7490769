-- ===== src/DiskMod/Roundtrip.antt =====
-- `Deserialize` after `Serialize` (src/wrapper/DiskMod.cpp).
use panda_scratchpad.Base.{
  ℕ, ◌+◌, ◌<◌, ◌^◌, ◌≡◌, ap, sym, true, false, none, [], ◌∷◌, ◌++◌, arith, length, append_assoc,
  append-nil, ltb, Bool-cases, inl, inr, if◌then◌else◌,
}
use panda_scratchpad.Base.Words.{Bytes, to_be}
use panda_scratchpad.Base.Outcome.{ok, ◌>>=◌}
use panda_scratchpad.Base.Memory.{Allocator}
use panda_scratchpad.DiskMod.{
  serialize, DiskMod, type_code, opts_code, reset, bool_byte, is_marker, ends_at_path,
  is_range_only,
}
use panda_scratchpad.DiskMod.Serialize.{serialize-layout}
use panda_scratchpad.DiskMod.Layout.{
  header_bytes, path_bytes, data_bytes, range_bytes, change_bytes, layout, IsStorable,
}
use panda_scratchpad.DiskMod.Deserialize.{
  blank_tmp, read_path, read_be, deserialize_data, deserialize_change, deserialize,
}
use panda_scratchpad.DiskMod.Reads.{
  type_of_code-type_code, opts_of_code-opts_code, type_code_small, opts_code_small,
  read_path-append, read_be-append, flag_back, read_flag, drop-to_be, read_data,
}

-- What the format keeps of a DiskMod: never the `stat` results or the entry added to a directory,
-- and the rest as far as the type and the options ask for it. No data comes back as a null pointer.
abbrev pub wire_view : DiskMod → DiskMod
wire_view dm =
    if is_marker dm.mod_type
    then record reset { mod_type = dm.mod_type; mod_opts = dm.mod_opts }
    else if ends_at_path dm.mod_type
    then record reset {
      mod_type = dm.mod_type;
      mod_opts = dm.mod_opts;
      path = dm.path;
      directory_mod = dm.directory_mod;
    }
    else record reset {
      mod_type = dm.mod_type;
      mod_opts = dm.mod_opts;
      path = dm.path;
      directory_mod = dm.directory_mod;
      file_mod_location = dm.file_mod_location;
      file_mod_len = dm.file_mod_len;
      file_mod_data =
          if is_range_only dm
          then none
          else if ltb 0 dm.file_mod_len
          then dm.file_mod_data
          else none;
    }

module _ (mem : Allocator) (dm : DiskMod) (s : IsStorable dm)
    (can : mem.can_alloc dm.file_mod_len ≡ true) where
  abbrev header : DiskMod
  header = record reset { mod_type = dm.mod_type; mod_opts = dm.mod_opts }

  abbrev flag : ℕ
  flag = bool_byte dm.directory_mod

  -- The path and the flag, whatever follows them.
  path_back :
      (rest : Bytes)
      → (read_path blank_tmp 0 [] (path_bytes dm ++ rest) ≡ ok (dm.path, flag ∷ rest))
        × (read_be 1 (flag ∷ rest) ≡ ok (flag, rest))
  path_back rest = (
    rw append_assoc (read_path-append dm.path [] [] (flag ∷ rest) s.no_nul tt (omega arith)),
    read_flag flag rest,
  )

  abbrev located : DiskMod
  located = record reset {
    mod_type = dm.mod_type;
    mod_opts = dm.mod_opts;
    path = dm.path;
    directory_mod = dm.directory_mod;
    file_mod_location = dm.file_mod_location;
    file_mod_len = dm.file_mod_len;
  }

  data_back :
      deserialize_data mem (if is_range_only dm then [] else data_bytes dm.file_mod_data) located
      ≡ ok (record located {
        file_mod_data =
            if is_range_only dm
            then none
            else if ltb 0 dm.file_mod_len
            then dm.file_mod_data
            else none;
      })
  unfolding deserialize_data
  data_back = elim (Bool-cases (is_range_only dm)) [
    | inl range_only ↦ rw range_only
    | inr with_data ↦ elim (Bool-cases (ltb 0 dm.file_mod_len)) [
      | inl some_data ↦
          let (bs, r, e) =
            read_data dm.file_mod_data dm.file_mod_len (s.whole_data with_data) some_data in
          rw (with_data, some_data, can, r)
            (ap (λ d. ok (record located { file_mod_data = d })) (sym e))
      | inr no_data ↦ rw (with_data, no_data)
    ]
  ]

  change_back :
      is_marker dm.mod_type ≡ false
      → deserialize_change mem (change_bytes dm) header ≡ ok (wire_view dm)
  unfolding deserialize_change
  change_back marker = elim (Bool-cases (ends_at_path dm.mod_type)) [
    | inl short ↦ rw (
      marker,
      short,
      ← append-nil (path_bytes dm),
      (path_back []).0,
      (path_back []).1,
      flag_back dm.directory_mod,
    )
    | inr long ↦
        let loc : dm.file_mod_location < 256 ^ 8 = omega (arith, s.location_fits) in
        let len : dm.file_mod_len < 256 ^ 8 = omega (arith, s.short_data) in
        let tail : Bytes = if is_range_only dm then [] else data_bytes dm.file_mod_data in
        rw
          (
            marker,
            long,
            (path_back (range_bytes dm ++ tail)).0,
            (path_back (range_bytes dm ++ tail)).1,
            flag_back dm.directory_mod,
          )
          (rw
            (
              append_assoc (to_be 8 dm.file_mod_location) (to_be 8 dm.file_mod_len) tail,
              read_be-append 8 dm.file_mod_location (to_be 8 dm.file_mod_len ++ tail) loc,
              read_be-append 8 dm.file_mod_len tail len,
            )
            data_back)
  ]

  -- On every DiskMod that the format can hold, and where the allocation of its data succeeds,
  -- `Deserialize` reads back from the layout what the format keeps.
  pub deserialize-layout : deserialize mem (layout dm) ≡ ok (wire_view dm)
  unfolding deserialize
  deserialize-layout =
      let t = type_code dm.mod_type in
      let o = opts_code dm.mod_opts in
      let rest = to_be 2 o ++ change_bytes dm in
      rw
        (
          drop-to_be (12 + length (change_bytes dm)) (header_bytes dm ++ change_bytes dm),
          append_assoc (to_be 2 t) (to_be 2 o) (change_bytes dm),
          read_be-append 2 t rest (type_code_small dm.mod_type),
          type_of_code-type_code dm.mod_type,
          read_be-append 2 o (change_bytes dm) (opts_code_small dm.mod_opts),
          opts_of_code-opts_code dm.mod_opts,
        )
        (elim (Bool-cases (is_marker dm.mod_type)) [
          | inl marker ↦ rw marker
          | inr change ↦ rw change (rw change at (change_back change))
        ])

-- `Deserialize` of what `Serialize` made, for every DiskMod that the format can hold and where the
-- allocations succeed: both succeed, and what the format keeps comes back.
pub deserialize-serialize :
    (mem : Allocator) (dm : DiskMod)
    → IsStorable dm
    → mem.can_alloc (length (layout dm)) ≡ true
    → mem.can_alloc dm.file_mod_len ≡ true
    → (serialize mem dm >>= λ r. deserialize mem r.0) ≡ ok (wire_view dm)
deserialize-serialize mem dm s can can' =
    rw (serialize-layout mem dm s can) (deserialize-layout mem dm s can')
