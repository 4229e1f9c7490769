-- ===== src/FsCommands/Examples.antt =====
-- src/utils/FSCommands.cpp for NOVA.
use panda_scratchpad.Base.{◌≡◌, ◌↔◌, refl, some}
use panda_scratchpad.Base.Texts.{codes}
use panda_scratchpad.FsCommands.{nova, get_fs_name, get_fs_commands, get_mkfs_command, dax}
use panda_scratchpad.FsCommands.Names.{get_fs_commands-get_fs_name}

get_fs_commands-get_fs_name_example :
    (get_fs_commands (codes "NOVA") ≡ some nova) ↔ (codes "NOVA" ≡ get_fs_name nova)
get_fs_commands-get_fs_name_example = get_fs_commands-get_fs_name (codes "NOVA") nova

dax_mkfs :
    get_mkfs_command dax (codes "/dev/pmem0") (codes "/mnt/pmem0")
    ≡ codes "mkfs.ext4 -b 4096 /dev/pmem0; mount -t ext4 -o dax /dev/pmem0 /mnt/pmem0"
unfolding get_mkfs_command
dax_mkfs = refl
