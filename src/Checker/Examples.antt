-- ===== src/Checker/Examples.antt =====
-- The comparisons of src/checker/DiskContents.cpp on a system in which each directory holds one file.
use panda_scratchpad.Base.{
  ℕ, zero, suc, false, ◌≡◌, refl, ◌↔◌, true, some, [], ◌∷◌, ◌++◌, arith, take, drop,
}
use panda_scratchpad.Base.Int.{pos, negsuc}
use panda_scratchpad.Base.Texts.{c_str, codes, text_eq}
use panda_scratchpad.Base.Maps.{IsMap}
use panda_scratchpad.Base.Outcome.{Returns, ok}
use panda_scratchpad.DiskMod.{Stat}
use panda_scratchpad.Checker.{Os, Dirent, DiskContents, new_contents, set_mount_point, first_word}
use panda_scratchpad.Checker.Scan.Depth.{HasDepth, HasSums, get_contents-Returns}
use panda_scratchpad.Checker.Scan.{get_contents}
use panda_scratchpad.Checker.Scan.Mirror.{Mirrors}
use panda_scratchpad.Checker.Compare.{
  base_path, compare_disk_contents, compare_entries_at_path, compare_file_contents,
}
use panda_scratchpad.Checker.Mounts.{Mounts}
use panda_scratchpad.Checker.Compare.Agreement.{Agree}
use panda_scratchpad.Checker.Compare.Disks.{
  compare_disk_contents-Agree, compare_disk_contents-Mirrors,
}
use panda_scratchpad.Checker.Compare.Files.{
  SameFile, compare_entries_at_path-SameFile, compare_file_contents-c_str,
}

abbrev pub log_stat : Stat
log_stat = record {
  st_ino = 12;
  st_mode = 33188;
  st_nlink = 1;
  st_uid = 0;
  st_gid = 0;
  st_size = 6;
  st_blksize = 4096;
  st_blocks = 8;
}

abbrev log_entry : Dirent
log_entry = record { d_ino = 12; d_off = 64; d_reclen = 24; d_type = 8; d_name = codes "log" }

-- The file has a NUL in its middle, and what follows depends on the path.
abbrev pub one_log : Os
one_log = record {
  entries = λ path. some (log_entry ∷ []);
  stat = λ path. some log_stat;
  lstat = λ path. some log_stat;
  popen = λ command. some (codes "d41d8cd9  " ++ command);
  read_file = λ path. some (codes "ab" ++ 0 ∷ path);
}

pub one_log-HasSums : HasSums one_log
unfolding first_word
one_log-HasSums path =
    (codes "d41d8cd9  " ++ (codes "md5sum " ++ path), refl, omega arith, omega arith)

pub one_log-HasDepth : HasDepth one_log (λ _. 0)
one_log-HasDepth path es e =
    let it : log_entry ∷ [] ≡ es = ground arith in rw (← it) ((λ h _. absurd (ground arith)), tt)

pub one_log-Mirrors : Mirrors one_log base_path (codes "/mnt/pmem1")
unfolding first_word
one_log-Mirrors = record {
  entries = λ p. refl;
  stat = λ p. refl;
  lstat = λ p. refl;
  sum = λ p. refl;
}

abbrev recorded : DiskContents
recorded = set_mount_point base_path (new_contents (codes "/dev/pmem0") (codes "NOVA"))

abbrev replayed : DiskContents
replayed = set_mount_point (codes "/mnt/pmem1") (new_contents (codes "/dev/pmem1") (codes "NOVA"))

get_contents-Returns_example : Returns IsMap (get_contents one_log 7 base_path 1 base_path [])
get_contents-Returns_example =
    get_contents-Returns one_log one_log-HasSums 7 base_path (λ _. 0) one_log-HasDepth 1 base_path
      [] (omega arith) tt

compare_disk_contents-Agree_example :
    Returns
      (λ c. (c.result ≡ true) ↔ Agree c.disk.contents c.other.contents)
      (compare_disk_contents one_log 7 1 recorded replayed [])
unfolding text_eq
compare_disk_contents-Agree_example =
    compare_disk_contents-Agree one_log one_log-HasSums (λ _. 0) one_log-HasDepth 7 1 recorded
      replayed [] (omega arith) (omega arith) tt tt refl

compare_disk_contents-Mirrors_example :
    Returns
      (λ c. (c.result ≡ true) × (c.diff ≡ []))
      (compare_disk_contents one_log 7 1 recorded replayed [])
compare_disk_contents-Mirrors_example =
    compare_disk_contents-Mirrors one_log one_log-HasSums (λ _. 0) one_log-HasDepth 7 1 recorded
      replayed [] (omega arith) (omega arith) refl refl refl one_log-Mirrors

compare_entries_at_path-SameFile_example :
    Returns
      (λ r. (r.0 ≡ true) ↔ SameFile one_log (base_path ++ codes "/log") (codes "/mnt/pmem1/log"))
      (compare_entries_at_path one_log 7 recorded replayed (codes "/log") [])
unfolding text_eq
compare_entries_at_path-SameFile_example =
    compare_entries_at_path-SameFile one_log recorded replayed (codes "/log") [] 7 one_log-HasSums
      refl

-- The files differ, but only behind a NUL.
compare_file_contents-c_str_example :
    Returns
      (λ r. (r.0 ≡ true) ↔ (
        c_str (take 16 (drop 0 (codes "ab" ++ 0 ∷ codes "/mnt/pmem0/log")))
        ≡ c_str (take 16 (drop 0 (codes "ab" ++ 0 ∷ codes "/mnt/pmem1/log")))))
      (compare_file_contents one_log
        (λ _. [])
        (λ _. [])
        recorded
        replayed
        (codes "/log")
        (pos 0)
        (pos 16)
        [])
unfolding text_eq
compare_file_contents-c_str_example =
    compare_file_contents-c_str one_log (λ _. []) (λ _. []) recorded replayed (codes "/log") 0 16 []
      (codes "ab" ++ 0 ∷ codes "/mnt/pmem0/log") (codes "ab" ++ 0 ∷ codes "/mnt/pmem1/log") log_stat
      log_stat refl refl refl refl refl (omega arith) (omega arith)

nul_hides_difference :
    compare_file_contents one_log
      (λ _. [])
      (λ _. [])
      recorded
      replayed
      (codes "/log")
      (pos 0)
      (pos 16)
      []
    ≡ ok (true, [])
unfolding compare_file_contents
nul_hides_difference = refl

-- A mount that is busy as often as the world says.
abbrev busy_mounts : Mounts ℕ
busy_mounts = record {
  mkdir = λ path n. (true, false, n);
  mount = λ disk_path mount_point fs_type n. (true, n);
  umount = λ path n. elim n [ zero ↦ (pos 0, false, 0) | suc m ↦ (negsuc 0, true, m) ];
  unlink = λ path n. (false, n);
}
