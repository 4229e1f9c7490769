-- ===== src/DiskMod.antt =====
-- src/wrapper/DiskMod.h and DiskMod.cpp: one recorded change to the file system, and its
-- serialized form. The buffers are lists of bytes, and a write or a read outside one is a fault.
pub mod Deserialize
pub mod Layout
pub mod Fields
pub mod Writes
pub mod Serialize
pub mod Reads
pub mod Roundtrip
pub mod Remove
pub mod Examples
use panda_scratchpad.Base.{
  ℕ, ◌+◌, ◌/◌, ◌%◌, Bool, true, false, ◌||◌, Option, none, some, [], ◌∷◌, ◌++◌, leb, ◌==◌,
  if◌then◌else◌, length, take,
}
use panda_scratchpad.Base.Words.{Bytes, u16, u32, u64, int_is_neg, to_be}
use panda_scratchpad.Base.Outcome.{Outcome, ok, failed, fault, ◌>>=◌}
use panda_scratchpad.Base.Memory.{Allocator, memcpy}

pub data ModType : Type 0 where
  create_mod data_metadata_mod metadata_mod data_mod data_mmap_mod remove_mod : ModType
  checkpoint_mod fsync_mod sync_mod sync_file_range_mod : ModType

pub data ModOpts : Type 0 where
  none_opt truncate_opt fallocate_opt fallocate_keep_size_opt punch_hole_keep_size_opt : ModOpts
  collapse_range_opt zero_range_opt zero_range_keep_size_opt insert_range_opt : ModOpts
  ms_async_opt ms_sync_opt : ModOpts

-- The values of the enumerations.
abbrev pub type_code : ModType → ℕ
type_code create_mod = 0
type_code data_metadata_mod = 1
type_code metadata_mod = 2
type_code data_mod = 3
type_code data_mmap_mod = 4
type_code remove_mod = 5
type_code checkpoint_mod = 6
type_code fsync_mod = 7
type_code sync_mod = 8
type_code sync_file_range_mod = 9

abbrev pub opts_code : ModOpts → ℕ
opts_code none_opt = 0
opts_code truncate_opt = 1
opts_code fallocate_opt = 2
opts_code fallocate_keep_size_opt = 3
opts_code punch_hole_keep_size_opt = 4
opts_code collapse_range_opt = 5
opts_code zero_range_opt = 6
opts_code zero_range_keep_size_opt = 7
opts_code insert_range_opt = 8
opts_code ms_async_opt = 9
opts_code ms_sync_opt = 10

-- `struct stat`, the fields that the program reads.
pub record Stat : Type 0 where
  pub st_ino : ℕ
  pub st_mode : ℕ
  pub st_nlink : ℕ
  pub st_uid : ℕ
  pub st_gid : ℕ
  pub st_size : ℕ
  pub st_blksize : ℕ
  pub st_blocks : ℕ

abbrev pub zero_stat : Stat
zero_stat = record {
  st_ino = 0;
  st_mode = 0;
  st_nlink = 0;
  st_uid = 0;
  st_gid = 0;
  st_size = 0;
  st_blksize = 0;
  st_blocks = 0;
}

-- sys/stat.h: `S_IFMT` is the four bits from bit 12 on.
abbrev pub s_isdir : ℕ → Bool
s_isdir mode = mode / 4096 % 16 == 4

-- `file_mod_data` is `none` where the shared pointer is null.
pub record DiskMod : Type 0 where
  pub path : Bytes
  pub mod_type : ModType
  pub mod_opts : ModOpts
  pub post_mod_stats : Stat
  pub directory_mod : Bool
  pub file_mod_data : Option Bytes
  pub file_mod_location : ℕ
  pub file_mod_len : ℕ
  pub directory_added_entry : Bytes

abbrev pub reset : DiskMod
reset = record {
  path = [];
  mod_type = create_mod;
  mod_opts = none_opt;
  post_mod_stats = zero_stat;
  directory_mod = false;
  file_mod_data = none;
  file_mod_location = 0;
  file_mod_len = 0;
  directory_added_entry = [];
}

-- `t == kCheckpointMod || t == kSyncMod`
abbrev pub is_marker : ModType → Bool
is_marker checkpoint_mod = true
is_marker sync_mod = true
is_marker _ = false

-- `t == kFsyncMod || t == kCreateMod`, where `Serialize` and `Deserialize` stop behind the path.
abbrev pub ends_at_path : ModType → Bool
ends_at_path fsync_mod = true
ends_at_path create_mod = true
ends_at_path _ = false

-- The same test in `GetSerializeSize`, which lists `kRemoveMod` too.
abbrev pub sized_to_path : ModType → Bool
sized_to_path fsync_mod = true
sized_to_path remove_mod = true
sized_to_path create_mod = true
sized_to_path _ = false

abbrev pub is_range_opt : ModOpts → Bool
is_range_opt fallocate_opt = true
is_range_opt fallocate_keep_size_opt = true
is_range_opt punch_hole_keep_size_opt = true
is_range_opt collapse_range_opt = true
is_range_opt zero_range_opt = true
is_range_opt zero_range_keep_size_opt = true
is_range_opt insert_range_opt = true
is_range_opt _ = false

abbrev pub is_sync_file_range : ModType → Bool
is_sync_file_range sync_file_range_mod = true
is_sync_file_range _ = false

-- Offset and length are stored, and no data.
abbrev pub is_range_only : DiskMod → Bool
is_range_only dm = is_sync_file_range dm.mod_type || is_range_opt dm.mod_opts

pub get_serialize_size : DiskMod → ℕ
get_serialize_size dm =
    if is_marker dm.mod_type
    then 12
    else if sized_to_path dm.mod_type
    then u64 (12 + 1 + (length dm.path + 1))
    else if is_range_only dm
    then u64 (12 + 1 + (length dm.path + 1) + 16)
    else if dm.directory_mod
    then u64 (12 + 1 + (length dm.path + 1) + (length dm.directory_added_entry + 1))
    else u64 (12 + 1 + (length dm.path + 1) + 16 + dm.file_mod_len)

-- The serializers return the buffer and the number of bytes that they report.
pub serialize_header : Bytes → ℕ → DiskMod → Outcome (Bytes × ℕ)
serialize_header buf off dm = do
  buf ← memcpy buf off (to_be 2 (u16 (type_code dm.mod_type)))
  buf ← memcpy buf (off + 2) (to_be 2 (u16 (opts_code dm.mod_opts)))
  ok (buf, 4)

abbrev pub bool_byte : Bool → ℕ
bool_byte true = 1
bool_byte false = 0

pub serialize_change_header : Bytes → ℕ → DiskMod → Outcome (Bytes × ℕ)
serialize_change_header buf off dm = do
  let size = u32 (length dm.path + 1)
  buf ← memcpy buf off (take size (dm.path ++ 0 ∷ []))
  buf ← memcpy buf (off + size) (bool_byte dm.directory_mod ∷ [])
  ok (buf, size + 1)

-- What `memcpy` reads through `file_mod_data.get()`.
pub mod_data : Option Bytes → ℕ → Outcome Bytes
mod_data none len = if len == 0 then ok [] else fault
mod_data (some bs) len = if leb len (length bs) then ok (take len bs) else fault

pub serialize_data_range : Bytes → ℕ → DiskMod → Outcome (Bytes × ℕ)
serialize_data_range buf off dm = do
  buf ← memcpy buf off (to_be 8 (u64 dm.file_mod_location))
  buf ← memcpy buf (off + 8) (to_be 8 (u64 dm.file_mod_len))
  if is_range_only dm then ok (buf, 16) else do
    bs ← mod_data dm.file_mod_data dm.file_mod_len
    buf ← memcpy buf (off + 16) bs
    ok (buf, u64 (16 + dm.file_mod_len))

-- `assert(0 && "Not implemented")`
abbrev serialize_directory_mod : Bytes → ℕ → DiskMod → Outcome (Bytes × ℕ)
serialize_directory_mod buf off dm = fault

-- `int res = f(...); if (res < 0) return nullptr;`
pub check_res : Bytes × ℕ → Outcome (Bytes × ℕ)
check_res (buf, n) = if int_is_neg n then failed else ok (buf, n)

-- The part behind the path.
pub serialize_rest : Bytes → ℕ → DiskMod → Outcome Bytes
serialize_rest buf off dm =
    if dm.directory_mod
    then (do r ← serialize_directory_mod buf off dm; (buf, res) ← check_res r; ok buf)
    else (do r ← serialize_data_range buf off dm; (buf, res) ← check_res r; ok buf)

pub serialize_change : Bytes → ℕ → DiskMod → Outcome Bytes
serialize_change buf off dm = if is_marker dm.mod_type then ok buf else do
  r ← serialize_change_header buf off dm
  (buf, res) ← check_res r
  if ends_at_path dm.mod_type then ok buf else serialize_rest buf (u32 (off + res)) dm

module _ (mem : Allocator) where
  -- `DiskMod::Serialize`: the block and `*size`; `failed` is the null pointer.
  pub serialize : DiskMod → Outcome (Bytes × ℕ)
  serialize dm =
      let mod_size = get_serialize_size dm in
      if mem.can_alloc mod_size
      then (do
        buf ← memcpy (mem.fresh mod_size) 0 (to_be 8 mod_size)
        r ← serialize_header buf 8 dm
        (buf, res) ← check_res r
        buf ← serialize_change buf (u32 (8 + res)) dm
        ok (buf, mod_size))
      else failed
