-- ===== src/ChangeLog/Examples.antt =====
-- The theorems about the change file at a concrete list of DiskMods and a system that takes
-- one byte at a write and gives what is left at a read.
use panda_scratchpad.Base.{ℕ, zero, suc, ◌≤◌, ◌<◌, ◌≡◌, refl, ap, List, [], ◌∷◌, arith}
use mathlib.Core.List.{foldl}
use panda_scratchpad.Base.Int.{pos}
use panda_scratchpad.Base.Outcome.{ok}
use panda_scratchpad.DiskMod.{DiskMod, reset, checkpoint_mod}
use panda_scratchpad.DiskMod.Layout.{IsStorable}
use panda_scratchpad.DiskMod.Examples.{zeroed, three_bytes, three_bytes-IsStorable}
use panda_scratchpad.ChangeLog.{FileIo, IsReliable, add_mod, serialize_mods, get_change_data}
use panda_scratchpad.ChangeLog.Groups.{checkpoint_groups, foldl-add_mod_nil}
use panda_scratchpad.ChangeLog.Roundtrip.{
  AllStorable, layouts, serialize_mods-layouts, get_change_data-serialize_mods,
}

abbrev upto : ℕ → ℕ → ℕ
upto zero n = 0
upto (suc a) zero = 0
upto (suc a) (suc b) = suc (upto a b)

upto-le : (a b : ℕ) → (upto a b ≤ a) × (upto a b ≤ b)
upto-le zero b = omega arith
upto-le (suc a) zero = omega arith
upto-le (suc a) (suc b) = omega (arith, upto-le a b)

upto_all : (a b : ℕ) → b ≤ a → upto a b ≡ b
upto_all zero b h = omega arith
upto_all (suc a) zero h = refl
upto_all (suc a) (suc b) h = ap suc (upto_all a b (omega arith))

abbrev pub slow_disk : FileIo
slow_disk = record { write_res = λ len n. pos 1; read_res = λ len n. pos (upto len n) }

read_some_slow :
    (len n : ℕ)
    → 0 < len
    → 0 < n
    → (k : ℕ) × (slow_disk.read_res len n ≡ pos (suc k)) × (suc k ≤ n) × (suc k ≤ len)
read_some_slow zero n h g = elim h [ ]
read_some_slow (suc len) zero h g = elim g [ ]
read_some_slow (suc len) (suc n) h g =
    (upto len n, refl, omega (arith, upto-le len n), omega (arith, upto-le len n))

pub slow_disk-IsReliable : IsReliable slow_disk
slow_disk-IsReliable = record {
  write_some = λ len n h. (0, refl, h);
  read_some = read_some_slow;
  read_end = λ n. refl;
  read_size = λ len h. ap pos (upto_all len 8 h);
}

abbrev checkpoint : DiskMod
checkpoint = record reset { mod_type = checkpoint_mod }

checkpoint-IsStorable : IsStorable checkpoint
checkpoint-IsStorable = record {
  not_remove = λ e. cc;
  not_directory = λ e. refl;
  no_nul = tt;
  short_path = omega arith;
  location_fits = omega arith;
  short_data = omega arith;
  whole_data = λ e. refl;
}

abbrev recorded : List DiskMod
recorded = three_bytes ∷ checkpoint ∷ []

recorded-AllStorable : AllStorable zeroed recorded
recorded-AllStorable = (three_bytes-IsStorable, refl, refl, (checkpoint-IsStorable, refl, refl, tt))

serialize_mods-layouts_example :
    serialize_mods zeroed slow_disk recorded [] ≡ (ok tt, layouts recorded)
serialize_mods-layouts_example =
    serialize_mods-layouts zeroed slow_disk slow_disk-IsReliable recorded [] recorded-AllStorable

get_change_data-serialize_mods_example :
    get_change_data zeroed slow_disk [] (serialize_mods zeroed slow_disk recorded []).1
    ≡ (ok tt, checkpoint_groups recorded)
get_change_data-serialize_mods_example =
    get_change_data-serialize_mods zeroed slow_disk slow_disk-IsReliable recorded
      recorded-AllStorable

groups_run : checkpoint_groups recorded ≡ (three_bytes ∷ []) ∷ [] ∷ []
unfolding checkpoint_groups
groups_run = refl

foldl-add_mod_nil_example :
    foldl add_mod [] (checkpoint ∷ three_bytes ∷ checkpoint ∷ [])
    ≡ checkpoint_groups (checkpoint ∷ three_bytes ∷ checkpoint ∷ [])
foldl-add_mod_nil_example = foldl-add_mod_nil (checkpoint ∷ three_bytes ∷ checkpoint ∷ [])
