-- ===== src/DiskMod/Layout.antt =====
-- The bytes that stand for a DiskMod in the change file (src/wrapper/DiskMod.cpp), and the DiskMods that
-- they can hold. The comment above `Serialize` says it otherwise: that the size in front is that of what
-- follows it, and that only checkpoints end behind the header.
-- Here the size counts its own 8 bytes, a sync ends behind the header as well, an fsync or a creation
-- behind the path, and a change of a range has no data.
use panda_scratchpad.Base.{
  ◌+◌, ◌<◌, ◌≡◌, ◌≢◌, false, ◌||◌, Option, none, some, [], ◌∷◌, ◌++◌, if◌then◌else◌, length,
}
use panda_scratchpad.Base.Words.{Bytes, to_be}
use panda_scratchpad.DiskMod.{
  DiskMod, remove_mod, type_code, opts_code, is_marker, ends_at_path, is_range_only, bool_byte,
}

abbrev pub header_bytes : DiskMod → Bytes
header_bytes dm = to_be 2 (type_code dm.mod_type) ++ to_be 2 (opts_code dm.mod_opts)

abbrev pub path_bytes : DiskMod → Bytes
path_bytes dm = dm.path ++ 0 ∷ bool_byte dm.directory_mod ∷ []

abbrev pub data_bytes : Option Bytes → Bytes
data_bytes none = []
data_bytes (some bs) = bs

abbrev pub range_bytes : DiskMod → Bytes
range_bytes dm = to_be 8 dm.file_mod_location ++ to_be 8 dm.file_mod_len

-- What follows the header. A creation and an fsync end behind the path.
abbrev pub change_bytes : DiskMod → Bytes
change_bytes dm =
    if is_marker dm.mod_type
    then []
    else if ends_at_path dm.mod_type
    then path_bytes dm
    else path_bytes dm
      ++ (range_bytes dm ++ (if is_range_only dm then [] else data_bytes dm.file_mod_data))

-- The whole entry, with its own size in front.
abbrev pub layout : DiskMod → Bytes
layout dm = to_be 8 (12 + length (change_bytes dm)) ++ (header_bytes dm ++ change_bytes dm)

abbrev pub NoNul : Bytes → Type 0
NoNul [] = Unit {0}
NoNul (b ∷ bs) = (b ≢ 0) × NoNul bs

-- A DiskMod that the format can hold: no removal, no directory change behind the path, a path
-- without NUL, sizes below 2 GiB, and as many bytes of data as its length says.
pub record IsStorable (dm : DiskMod) : Type 0 where
  pub not_remove : dm.mod_type ≢ remove_mod
  pub not_directory :
      (is_marker dm.mod_type || ends_at_path dm.mod_type) ≡ false → dm.directory_mod ≡ false
  pub no_nul : NoNul dm.path
  pub short_path : length dm.path < 2147483600
  pub location_fits : dm.file_mod_location < 18446744073709551616
  pub short_data : dm.file_mod_len < 2147483600
  pub whole_data : is_range_only dm ≡ false → length (data_bytes dm.file_mod_data) ≡ dm.file_mod_len
