-- ===== src/FsCommands/Names.antt =====
-- `GetFSCommands` of src/utils/FSCommands.cpp against the names of the file systems.
use panda_scratchpad.Base.{◌≡◌, ◌↔◌, refl, some, arith}
use panda_scratchpad.Base.Words.{Bytes}
use panda_scratchpad.Base.Texts.{text_eq_iff}
use panda_scratchpad.FsCommands.{FsCommands, dax, nova, pmfs, get_fs_name, get_fs_commands}

found : (c : FsCommands) → get_fs_commands (get_fs_name c) ≡ some c
unfolding get_fs_commands
found dax = refl
found nova = refl
found pmfs = refl

named : (name : Bytes) (c : FsCommands) → get_fs_commands name ≡ some c → name ≡ get_fs_name c
unfolding get_fs_commands
named name c h = ground (
  arith,
  text_eq_iff name (get_fs_name dax),
  text_eq_iff name (get_fs_name nova),
  text_eq_iff name (get_fs_name pmfs),
)

-- `GetFSCommands` gives the commands of a file system for its name, and for no other name.
pub get_fs_commands-get_fs_name :
    (name : Bytes) (c : FsCommands) → (get_fs_commands name ≡ some c) ↔ (name ≡ get_fs_name c)
get_fs_commands-get_fs_name name c = (named name c, λ e. rw e (found c))
