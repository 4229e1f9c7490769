-- ===== src/ChangeLog.antt =====
-- The file `run_changes`, through which the recorder hands its DiskMods to the tester:
-- `RecordCmFsOps::WriteWhole` and `Serialize` of src/wrapper/wrapper.cpp, and
-- `Tester::GetChangeData` of src/utils/Tester.cpp. `write` and `read` are the system's.
pub mod Groups
pub mod Writing
pub mod Reading
pub mod Roundtrip
pub mod Examples
use panda_scratchpad.Base.{
  ℕ, zero, suc, ◌+◌, ◌-◌, ◌≤◌, ◌<◌, ◌≡◌, List, [], ◌∷◌, ◌++◌, ltb, leb, ◌==◌, ◌&&◌, if◌then◌else◌,
  length, take, drop,
}
use panda_scratchpad.Base.Int.{ℤ, pos, negsuc}
use panda_scratchpad.Base.Words.{Bytes, of_be}
use panda_scratchpad.Base.Outcome.{Outcome, ok, failed, fault, stuck}
use panda_scratchpad.Base.Exec.{Exec, ◌>>=◌, ◌>>◌, pure, lift}
use panda_scratchpad.Base.Memory.{Allocator}
use panda_scratchpad.DiskMod.{DiskMod, checkpoint_mod, type_code, serialize}
use panda_scratchpad.DiskMod.Deserialize.{deserialize}

-- What `write(fd, buf, n)` returns for a file of `len` bytes, and `read(fd, buf, n)` where `len`
-- bytes are left. (Neither transfers 2 GiB, so the results fit the code's `int`.)
pub record FileIo : Type 0 where
  pub write_res : (len n : ℕ) → ℤ
  pub read_res : (len n : ℕ) → ℤ

-- A file on a device with room for it and without errors: a call transfers at least one byte of
-- those asked for, the end of the file reads as 0, and the eight bytes of a size are read whole.
pub record IsReliable (io : FileIo) : Type 0 where
  pub write_some : (len n : ℕ) → 0 < n → (k : ℕ) × (io.write_res len n ≡ pos (suc k)) × (suc k ≤ n)
  pub read_some :
      (len n : ℕ)
      → 0 < len
      → 0 < n
      → (k : ℕ) × (io.read_res len n ≡ pos (suc k)) × (suc k ≤ n) × (suc k ≤ len)
  pub read_end : (n : ℕ) → io.read_res 0 n ≡ pos 0
  pub read_size : (len : ℕ) → 8 ≤ len → io.read_res len 8 ≡ pos 8

-- `mods_.back().push_back(mod)`
pub push_last : List (List DiskMod) → DiskMod → List (List DiskMod)
push_last [] m = []
push_last (g ∷ []) m = (g ++ m ∷ []) ∷ []
push_last (g ∷ h ∷ gs) m = g ∷ push_last (h ∷ gs) m

-- What `GetChangeData` does with a DiskMod that it has read.
unfoldable pub add_mod : List (List DiskMod) → DiskMod → List (List DiskMod)
unfolding push_last
add_mod groups m =
    if type_code m.mod_type == type_code checkpoint_mod
    then groups ++ [] ∷ []
    else elim groups [ [] ↦ push_last ([] ∷ []) m | g ∷ gs ↦ push_last (g ∷ gs) m ]

module _ (mem : Allocator) (io : FileIo) where
  -- The state is the content of the file.
  pub write_loop : ℕ → Bytes → (size written : ℕ) → Exec Bytes (Unit {0})
  write_loop zero data_ size written file = (stuck, file)
  write_loop (suc fuel) data_ size written file =
      if ltb written size
      then elim (io.write_res (length file) (size - written)) [
        | negsuc _ ↦ (failed, file)
        | pos res ↦
            write_loop fuel data_ size (written + res) (file ++ take res (drop written data_))
      ]
      else (ok tt, file)

  -- Each write takes a byte at least, so `size + 1` rounds are enough.
  pub write_whole : ℕ → Bytes → Exec Bytes (Unit {0})
  unfolding write_loop
  write_whole size data_ = write_loop (size + 1) data_ size 0

  pub serialize_mods : List DiskMod → Exec Bytes (Unit {0})
  serialize_mods [] = pure tt
  serialize_mods (m ∷ ms) = do
    (serial_mod, size) ← lift (serialize mem m)
    write_whole size serial_mod
    serialize_mods ms

  -- Reads behind `got` up to `size` bytes in all. An end of file there is an error.
  pub read_loop : ℕ → (size : ℕ) → (got : Bytes) → Exec Bytes Bytes
  read_loop zero size got left = (stuck, left)
  read_loop (suc fuel) size got left =
      if ltb (length got) size
      then elim (io.read_res (length left) (size - length got)) [
        | negsuc _ ↦ (failed, left)
        | pos zero ↦ (failed, left)
        | pos (suc k) ↦ read_loop fuel size (got ++ take (suc k) left) (drop (suc k) left)
      ]
      else (ok got, left)

  -- The entry whose size is in `buf`. A size below 8 does not hold the size itself.
  pub read_entry : Bytes → Exec Bytes DiskMod
  read_entry buf = do
    let size = of_be buf
    (if leb 8 size && mem.can_alloc size then pure tt else lift fault)
    entry ← read_loop (size + 1) size buf
    lift (deserialize mem entry)

  abbrev after_entry :
      Outcome DiskMod × Bytes
      → (DiskMod → Bytes → Outcome (Unit {0}) × List (List DiskMod))
      → List (List DiskMod)
      → Outcome (Unit {0}) × List (List DiskMod)
  after_entry (ok m, left) next groups = next m left
  after_entry (failed, left) next groups = (failed, groups)
  after_entry (fault, left) next groups = (fault, groups)
  after_entry (stuck, left) next groups = (stuck, groups)

  -- The loop over the file's rest. `read(fd, &buf, 8)` that is cut short leaves part of `buf`
  -- without a value.
  pub change_loop : ℕ → Bytes → List (List DiskMod) → Outcome (Unit {0}) × List (List DiskMod)
  change_loop zero left groups = (stuck, groups)
  change_loop (suc fuel) left groups = elim (io.read_res (length left) 8) [
    | negsuc _ ↦ (failed, groups)
    | pos zero ↦ (ok tt, groups)
    | pos (suc k) ↦
        if leb 8 (suc k)
        then after_entry (read_entry (take 8 left) (drop 8 left))
            (λ m rest. change_loop fuel rest (add_mod groups m)) groups
        else (fault, groups)
  ]

  -- An entry is longer than its size, so a round for each byte is enough. `groups` is `mods_`.
  pub get_change_data : List (List DiskMod) → Bytes → Outcome (Unit {0}) × List (List DiskMod)
  get_change_data groups file = change_loop (length file + 1) file groups
