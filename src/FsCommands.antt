-- ===== src/FsCommands.antt =====
-- src/utils/FSCommands.cpp: the commands that make and mount each file system.
pub mod Names
pub mod Examples
use panda_scratchpad.Base.{Bool, true, false, Option, none, some, ◌++◌, if◌then◌else◌}
use panda_scratchpad.Base.Words.{Bytes}
use panda_scratchpad.Base.Texts.{codes, text_eq}

-- The classes derived from `FSCommands`.
pub data FsCommands : Type 0 where
  dax nova pmfs : FsCommands

unfoldable pub get_fs_name : FsCommands → Bytes
get_fs_name dax = codes "dax"
get_fs_name nova = codes "NOVA"
get_fs_name pmfs = codes "pmfs"

unfoldable pub get_mount_command : FsCommands → (dev_path mount_point : Bytes) → Bytes
unfolding get_fs_name
get_mount_command dax dev_path mount_point =
    codes "mount -t ext4 -o dax " ++ (dev_path ++ (codes " " ++ mount_point))
get_mount_command nova dev_path mount_point =
    codes "mount -t "
    ++ (get_fs_name nova ++ (codes " " ++ (dev_path ++ (codes " " ++ mount_point))))
get_mount_command pmfs dev_path mount_point =
    codes "mount -t "
    ++ (get_fs_name pmfs ++ (codes " " ++ (dev_path ++ (codes " " ++ mount_point))))

abbrev mount_init : FsCommands → (dev_path mount_point : Bytes) → Bytes
mount_init c dev_path mount_point =
    codes "mount -t "
    ++ (get_fs_name c ++ (codes " -o init " ++ (dev_path ++ (codes " " ++ mount_point))))

unfoldable pub get_mkfs_command : FsCommands → (dev_path mount_point : Bytes) → Bytes
unfolding get_fs_name get_mount_command
get_mkfs_command dax dev_path mount_point =
    (codes "mkfs.ext4 -b 4096 " ++ dev_path)
    ++ (codes "; " ++ get_mount_command dax dev_path mount_point)
get_mkfs_command nova dev_path mount_point = mount_init nova dev_path mount_point
get_mkfs_command pmfs dev_path mount_point = mount_init pmfs dev_path mount_point

-- NULL for a name that is not known.
unfoldable pub get_fs_commands : Bytes → Option FsCommands
unfolding get_fs_name text_eq
get_fs_commands fs_name =
    if text_eq fs_name (get_fs_name dax)
    then some dax
    else if text_eq fs_name (get_fs_name nova)
    then some nova
    else if text_eq fs_name (get_fs_name pmfs)
    then some pmfs
    else none
