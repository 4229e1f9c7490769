-- ===== src/Checker.antt =====
-- src/checker/DiskContents.h and DiskContents.cpp: what the checker knows of a file, and the scan of
-- a mounted file system. The system calls and `md5sum` are parameters (`Os`). Nothing else writes to
-- the file system while the checker reads it.
pub mod Scan
pub mod Compare
pub mod Sanity
pub mod Mounts
pub mod Examples
use panda_scratchpad.Base.{
  ℕ, ◌%◌, ◌/◌, Bool, true, false, ◌&&◌, not, Option, none, some, List, [], ◌∷◌, ◌++◌, ◌==◌, leb,
  if◌then◌else◌, take, length,
}
use panda_scratchpad.Base.Words.{Bytes}
use panda_scratchpad.Base.Texts.{text_eq, codes}
use panda_scratchpad.Base.Maps.{TextMap}
use panda_scratchpad.Base.Outcome.{Outcome, ok, fault}
use panda_scratchpad.DiskMod.{Stat}

-- `struct dirent`; the words as bit patterns, the name without its NUL.
pub record Dirent : Type 0 where
  pub d_ino : ℕ
  pub d_off : ℕ
  pub d_reclen : ℕ
  pub d_type : ℕ
  pub d_name : Bytes

abbrev pub dt_dir : ℕ
dt_dir = 4

abbrev pub dt_reg : ℕ
dt_reg = 8

abbrev pub dt_lnk : ℕ
dt_lnk = 10

-- sys/stat.h
abbrev pub s_isreg : ℕ → Bool
s_isreg mode = mode / 4096 % 16 == 8

-- What the checker asks of the system. `none` stands for an error.
pub record Os : Type 0 where
  -- `opendir`, and what `readdir` then returns up to NULL
  pub entries : Bytes → Option (List Dirent)
  pub stat : Bytes → Option Stat
  pub lstat : Bytes → Option Stat
  -- what a command prints
  pub popen : Bytes → Option Bytes
  -- the bytes of a file that can be opened
  pub read_file : Bytes → Option Bytes

pub record FileAttributes : Type 0 where
  pub dir_attr : Dirent
  pub stat_attr : Stat
  pub md5sum : Bytes

-- The constructor. Its `st_ino == -1` assigns nothing, so this field keeps what the memory holds.
abbrev pub new_attributes : ℕ → FileAttributes
new_attributes st_ino = record {
  dir_attr = record {
    d_ino = 18446744073709551615;
    d_off = 18446744073709551615;
    d_reclen = 65535;
    d_type = 255;
    d_name = [];
  };
  stat_attr = record {
    st_ino = st_ino;
    st_mode = 4294967295;
    st_nlink = 18446744073709551615;
    st_uid = 4294967295;
    st_gid = 4294967295;
    st_size = 18446744073709551615;
    st_blksize = 18446744073709551615;
    st_blocks = 18446744073709551615;
  };
  md5sum = [];
}

-- `d_name` has 256 characters, and the last of them is set to NUL.
abbrev pub set_dir_attr : Dirent → FileAttributes → FileAttributes
set_dir_attr a fa = record fa { dir_attr = record a { d_name = take 255 a.d_name } }

-- A call that fails leaves the buffer as it is.
abbrev pub set_stat_attr : Os → Bytes → Bool → FileAttributes → FileAttributes
set_stat_attr os path islstat fa = elim (if islstat then os.lstat path else os.stat path) [
  | none ↦ fa
  | some st ↦ record fa { stat_attr = st }
]

-- `isspace`
abbrev is_space : ℕ → Bool
is_space c = if c == 32 then true else leb 9 c && leb c 13

-- The `%s` of `fscanf`: white space is skipped, and the characters up to the next are taken.
take_word : Bytes → Bytes
take_word [] = []
take_word (c ∷ s) = let rest = take_word s in if is_space c then [] else c ∷ rest

pub first_word : Bytes → Bytes
unfolding take_word
first_word [] = []
first_word (c ∷ s) = let word = take_word (c ∷ s) in if is_space c then first_word s else word

-- A pipe that cannot be opened, a word of more than 99 characters, or none (when the buffer is read
-- without having been written) is a fault.
unfoldable pub set_md5sum : Os → Bytes → FileAttributes → Outcome FileAttributes
set_md5sum os path fa = elim (os.popen (codes "md5sum " ++ path)) [
  | none ↦ fault
  | some out ↦
      let word = first_word out in
      if (length word == 0)
      then fault
      else if leb 100 (length word)
      then fault
      else ok (record fa { md5sum = word })
]

unfoldable pub compare_dir_attr : FileAttributes → Dirent → Bool
compare_dir_attr fa a =
    fa.dir_attr.d_ino == a.d_ino
    && (fa.dir_attr.d_off == a.d_off
        && (fa.dir_attr.d_reclen == a.d_reclen
            && (fa.dir_attr.d_type == a.d_type && text_eq fa.dir_attr.d_name a.d_name)))

unfoldable pub compare_stat_attr : FileAttributes → Stat → Bool
compare_stat_attr fa a =
    fa.stat_attr.st_ino == a.st_ino
    && (fa.stat_attr.st_mode == a.st_mode
        && (fa.stat_attr.st_nlink == a.st_nlink
            && (fa.stat_attr.st_uid == a.st_uid
                && (fa.stat_attr.st_gid == a.st_gid
                    && (fa.stat_attr.st_size == a.st_size
                        && (fa.stat_attr.st_blksize == a.st_blksize
                            && fa.stat_attr.st_blocks == a.st_blocks))))))

-- `compare` gives 0 for equal texts: this is true where they differ.
unfoldable pub compare_md5sum : FileAttributes → Bytes → Bool
compare_md5sum fa a = not (text_eq fa.md5sum a)

unfoldable pub is_regular_file : FileAttributes → Bool
is_regular_file fa = s_isreg fa.stat_attr.st_mode

pub record DiskContents : Type 0 where
  pub device_mounted : Bool
  pub disk_path : Bytes
  pub mount_point : Bytes
  pub fs_type : Bytes
  pub contents : TextMap FileAttributes

abbrev pub new_contents : Bytes → Bytes → DiskContents
new_contents path type = record {
  device_mounted = false;
  disk_path = path;
  mount_point = [];
  fs_type = type;
  contents = [];
}

abbrev pub set_mount_point : Bytes → DiskContents → DiskContents
set_mount_point path d = record d { mount_point = path }
