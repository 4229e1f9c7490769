-- ===== src/Checker/Sanity/Examples.antt =====
-- The sanity checks of src/checker/DiskContents.cpp on a mounted file system with one empty directory.
use panda_scratchpad.Base.{◌≡◌, refl, Bool, true, false, none, some, [], ◌∷◌}
use panda_scratchpad.Base.Words.{Bytes}
use panda_scratchpad.Base.Texts.{text_eq, codes}
use panda_scratchpad.Base.Outcome.{ok}
use panda_scratchpad.DiskMod.{Stat}
use panda_scratchpad.Checker.{Dirent}
use panda_scratchpad.Checker.Examples.{log_stat}
use panda_scratchpad.Checker.Scan.{is_dots}
use panda_scratchpad.Checker.Sanity.{
  Files, Sanity, is_empty_dir_or_file, is_file, delete_entries, delete_files,
}
use panda_scratchpad.Checker.Sanity.Failure.{delete_entries-empty_dir}

abbrev dir_stat : Stat
dir_stat = record log_stat { st_mode = 16877 }

abbrev named : Bytes → Dirent
named name = record { d_ino = 1; d_off = 0; d_reclen = 24; d_type = 4; d_name = name }

-- The world is whether the directory `/mnt/pmem0/a` is there; each file that is made is forgotten.
abbrev empty_a : Files Bool
empty_a = record {
  os = λ w. record {
    entries = λ path. some (named (codes ".") ∷ named (codes "..") ∷ []);
    stat = λ path. some dir_stat;
    lstat = λ path. some dir_stat;
    popen = λ command. none;
    read_file = λ path. none;
  };
  unlink = λ path w. (false, w);
  rmdir = λ path w. (w, false);
  create = λ path w. (true, w);
}

abbrev start : Sanity Bool
start = record { world = true; contents = []; diff = [] }

delete_entries-empty_dir_example :
    (delete_entries empty_a
      (delete_files empty_a 1)
      (codes "/mnt/pmem0")
      (named (codes "a") ∷ [])
      start).0
    ≡ ok false
unfolding is_dots text_eq is_empty_dir_or_file is_file
delete_entries-empty_dir_example =
    delete_entries-empty_dir empty_a 0 (codes "/mnt/pmem0") b'/' (codes "mnt/pmem0/a")
      (named (codes "a")) [] start (λ p w h. refl) refl refl refl refl refl
