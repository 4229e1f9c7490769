-- ===== src/Recorder/Examples.antt =====
-- Tests of the recorder of src/wrapper/wrapper.cpp, on a world that is the content of one file,
-- open as 3.
use panda_scratchpad.Base.{◌≡◌, ◌≤◌, refl, true, some, [], ◌∷◌, ◌++◌, length, take}
use panda_scratchpad.Base.{ℕ, arith, replicate, length-replicate, length-take}
use panda_scratchpad.Base.Int.{to_int, to_int_pos, pos, negsuc}
use panda_scratchpad.Base.Words.{Bytes}
use panda_scratchpad.DiskMod.{zero_stat}
use panda_scratchpad.Recorder.{FsFns, Sys, write}
use panda_scratchpad.Recorder.Tables.{lookup_fd}
use panda_scratchpad.Recorder.Step.{step}
use panda_scratchpad.Recorder.Passthrough.{passthrough}
use panda_scratchpad.Recorder.Storable.{IsPosix, IsGood}
use panda_scratchpad.Recorder.Storable.Steps.{step-IsGood}
use panda_scratchpad.Recorder.Transparency.{IsQuiet}
use panda_scratchpad.Recorder.Transparency.Data.{step-passthrough}

-- Bit 15 of the mode says that it is a regular file.
abbrev pub one_file : FsFns Bytes
one_file = record {
  fn_mknod = λ _ _ _ w. (pos 0, w);
  fn_mkdir = λ _ _ w. (pos 0, w);
  fn_open = λ _ _ w. (pos 3, w);
  fn_open2 = λ _ _ _ w. (pos 3, w);
  fn_lseek = λ _ _ _ w. (pos (length w), w);
  fn_write = λ _ buf n w. (pos (length (take 4096 (take n buf))), w ++ take 4096 (take n buf));
  fn_pwrite = λ _ _ _ _ w. (negsuc 0, w);
  fn_mmap = λ _ _ _ _ _ _ w. (18446744073709551615, w);
  fn_msync = λ _ _ _ w. (negsuc 0, w);
  fn_munmap = λ _ _ w. (negsuc 0, w);
  fn_fallocate = λ _ _ _ _ w. (negsuc 0, w);
  fn_close = λ _ w. (pos 0, w);
  fn_rename = λ _ _ w. (pos 0, w);
  fn_unlink = λ _ w. (pos 0, []);
  fn_remove = λ _ w. (pos 0, []);
  fn_stat = λ _ w. ((pos 0, record zero_stat { st_mode = 32768; st_size = length w }), w);
  fn_path_exists = λ _ w. (true, w);
  fn_fsync = λ _ w. (pos 0, w);
  fn_fdatasync = λ _ w. (pos 0, w);
  fn_sync = λ w. w;
  fn_sync_file_range = λ _ _ _ _ w. (pos 0, w);
  cm_checkpoint = λ w. (pos 1, w);
  memory = λ _ n _. replicate n 0;
}

abbrev pub one_file-IsQuiet : IsQuiet one_file
one_file-IsQuiet = record {
  quiet_stat = λ p w. refl;
  quiet_exists = λ p w. refl;
  quiet_tell = λ fd w. refl;
}

some_of : (n : ℕ) (buf : Bytes) → length (take 4096 (take n buf)) ≤ length buf
some_of n buf = omega (arith, length-take 4096 (take n buf), length-take n buf)

page : (n : ℕ) (buf : Bytes) → length (take 4096 (take n buf)) ≤ 4096
page n buf = omega (arith, length-take 4096 (take n buf))

pub one_file-IsPosix : IsPosix one_file
unfolding to_int
one_file-IsPosix = record {
  write_fits = λ fd buf n w.
      rw (to_int_pos (length (take 4096 (take n buf))) (omega (arith, page n buf)))
        (some_of n buf, omega (arith, page n buf));
  pwrite_fits = λ fd buf n offset w. (omega arith, omega arith);
  memory_length = λ addr n w. length-replicate n 0;
  truncates_file = λ p flags w e t. refl;
  truncates_file2 = λ p flags mode w e t. refl;
}

-- The file `/a` is open.
abbrev pub opened : Sys Bytes
opened = record {
  recorder = record { fd_map = (pos 3, 47 ∷ 97 ∷ []) ∷ []; mmap_map = []; mods = [] };
  world = 7 ∷ [];
}

path_of_3 : lookup_fd (pos 3) opened.recorder.fd_map ≡ some (47 ∷ 97 ∷ [])
unfolding lookup_fd
path_of_3 = refl

step-passthrough_example :
    ((step one_file (write (pos 3) (1 ∷ 2 ∷ []) 2) opened).0
      ≡ (passthrough one_file (write (pos 3) (1 ∷ 2 ∷ []) 2) (7 ∷ [])).0)
    × ((step one_file (write (pos 3) (1 ∷ 2 ∷ []) 2) opened).1.world
        ≡ (passthrough one_file (write (pos 3) (1 ∷ 2 ∷ []) 2) (7 ∷ [])).1)
step-passthrough_example =
    step-passthrough one_file one_file-IsQuiet opened (write (pos 3) (1 ∷ 2 ∷ []) 2)
      (47 ∷ 97 ∷ [], path_of_3, refl)

opened-IsGood : IsGood opened
opened-IsGood = record { good_fds = (omega arith, tt); good_mappings = tt; good_mods = tt }

step-IsGood_example : IsGood (step one_file (write (pos 3) (1 ∷ 2 ∷ []) 2) opened).1
step-IsGood_example =
    step-IsGood one_file (write (pos 3) (1 ∷ 2 ∷ []) 2) opened one_file-IsPosix opened-IsGood tt
