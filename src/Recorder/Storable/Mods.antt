-- ===== src/Recorder/Storable/Mods.antt =====
-- The DiskMods that the calls of a recorder (src/wrapper/wrapper.cpp) make, one by one, against
-- `IsStorable`.
use panda_scratchpad.Base.{
  zero, suc, ltb-eq_true, length-take, ℕ, ◌<◌, ◌≤◌, ◌≡◌, ◌≢◌, refl, Bool, true, false, ◌||◌, ◌&&◌,
  some, none, if◌then◌else◌, length, take, ltb, ◌==◌, arith,
}
use panda_scratchpad.Base.Int.{ℤ, to_ℕ}
use panda_scratchpad.Base.Words.{Bytes}
use panda_scratchpad.Base.Outcome.{ok}
use panda_scratchpad.DiskMod.{
  Stat, s_isdir, ModOpts, is_range_opt, is_range_only, is_sync_file_range, data_mod,
  data_metadata_mod, remove_mod,
}
use panda_scratchpad.DiskMod.Layout.{IsStorable, data_bytes}
use panda_scratchpad.Recorder.{to_u64, Mapping}
use panda_scratchpad.Recorder.Files.{fallocate_opts}
use panda_scratchpad.Recorder.Step.Growth.{
  new_directory, opened_file, written_directory, written_file, synced_mapping, allocated_range,
  synced_file, synced_all, synced_range, checkpoint_marker,
}
use panda_scratchpad.Recorder.Storable.{IsGoodPath}
use panda_scratchpad.Recorder.Storable.Maps.{to_u64_fits}

data_not_remove : (b : Bool) → (if b then data_mod else data_metadata_mod) ≢ remove_mod
data_not_remove true e = cc
data_not_remove false e = cc

length-written :
    (n : ℕ) (buf : Bytes)
    → n ≤ length buf
    → length (data_bytes (if ltb 0 n then some (take n buf) else none)) ≡ n
length-written zero buf h = refl
length-written (suc n) buf h =
    rw (ltb-eq_true 0 (suc n) (omega arith)) (omega (arith, length-take (suc n) buf))

pub fallocate_opts_range :
    (mode : ℕ) (opts : ModOpts) → fallocate_opts mode ≡ ok opts → is_range_opt opts ≡ true
unfolding fallocate_opts
fallocate_opts_range mode opts h = ground arith

pub range_only :
    (b : Bool) (opts : ModOpts)
    → is_range_opt opts ≡ true
    → (is_sync_file_range (if b then data_mod else data_metadata_mod) || is_range_opt opts) ≡ true
range_only true opts h = h
range_only false opts h = h

pub new_directory-IsStorable : (p : Bytes) → IsGoodPath p → IsStorable (new_directory p)
new_directory-IsStorable p (n, l) = record {
  not_remove = λ e. cc;
  not_directory = λ e. absurd cc;
  no_nul = n;
  short_path = l;
  location_fits = omega arith;
  short_data = omega arith;
  whole_data = λ e. refl;
}

pub opened_file-IsStorable :
    (p : Bytes) (exists : Bool) (stats : Stat)
    → IsGoodPath p
    → (exists ≡ true → s_isdir stats.st_mode ≡ false)
    → IsStorable (opened_file p exists stats)
opened_file-IsStorable p true stats (n, l) h = record {
  not_remove = λ e. cc;
  not_directory = λ e. h refl;
  no_nul = n;
  short_path = l;
  location_fits = omega arith;
  short_data = omega arith;
  whole_data = λ e. refl;
}
opened_file-IsStorable p false stats (n, l) h = record {
  not_remove = λ e. cc;
  not_directory = λ e. absurd cc;
  no_nul = n;
  short_path = l;
  location_fits = omega arith;
  short_data = omega arith;
  whole_data = λ e. refl;
}

pub written_directory-IsStorable :
    (location : ℕ) → location < 18446744073709551616 → IsStorable (written_directory location)
written_directory-IsStorable location h = record {
  not_remove = λ e. cc;
  not_directory = λ e. absurd cc;
  no_nul = tt;
  short_path = omega arith;
  location_fits = h;
  short_data = omega arith;
  whole_data = λ e. refl;
}

pub written_file-IsStorable :
    (path buf : Bytes) (location : ℕ) (pre post : Stat) (res : ℤ)
    → IsGoodPath path
    → location < 18446744073709551616
    → to_ℕ res ≤ length buf
    → to_ℕ res < 2147483600
    → IsStorable (written_file path buf location pre post res)
written_file-IsStorable path buf location pre post res (n, l) h le lt = record {
  not_remove = data_not_remove (pre.st_size == post.st_size);
  not_directory = λ e. refl;
  no_nul = n;
  short_path = l;
  location_fits = h;
  short_data = lt;
  whole_data = λ e. length-written (to_ℕ res) buf le;
}

pub synced_mapping-IsStorable :
    (entry : ℕ × Mapping) (addr n flags : ℕ) (bs : Bytes)
    → IsGoodPath entry.1.path
    → n < 2147483600
    → length bs ≡ n
    → IsStorable (synced_mapping entry addr n flags bs)
synced_mapping-IsStorable (k, v) addr n flags bs (g, l) lt len = record {
  not_remove = λ e. cc;
  not_directory = λ e. refl;
  no_nul = g;
  short_path = l;
  location_fits = omega arith;
  short_data = lt;
  whole_data = λ e. len;
}

pub allocated_range-IsStorable :
    (path : Bytes) (offset len : ℤ) (pre post : Stat) (opts : ModOpts)
    → IsGoodPath path
    → to_u64 len < 2147483600
    → is_range_opt opts ≡ true
    → IsStorable (allocated_range path offset len pre post opts)
allocated_range-IsStorable path offset len pre post opts (g, l) lt range = record {
  not_remove = data_not_remove ((pre.st_size == post.st_size) && (pre.st_blocks == post.st_blocks));
  not_directory = λ e. refl;
  no_nul = g;
  short_path = l;
  location_fits = to_u64_fits offset;
  short_data = lt;
  whole_data = λ e.
      let ranged : is_range_only (allocated_range path offset len pre post opts) ≡ true =
        range_only ((pre.st_size == post.st_size) && (pre.st_blocks == post.st_blocks)) opts
          range in
      absurd cc;
}

pub synced_file-IsStorable : (path : Bytes) → IsGoodPath path → IsStorable (synced_file path)
synced_file-IsStorable path (g, l) = record {
  not_remove = λ e. cc;
  not_directory = λ e. refl;
  no_nul = g;
  short_path = l;
  location_fits = omega arith;
  short_data = omega arith;
  whole_data = λ e. refl;
}

pub synced_range-IsStorable :
    (path : Bytes) (stats : Stat) (offset nbytes : ℕ)
    → IsGoodPath path
    → offset < 18446744073709551616
    → nbytes < 2147483600
    → IsStorable (synced_range path stats offset nbytes)
synced_range-IsStorable path stats offset nbytes (g, l) h lt = record {
  not_remove = λ e. cc;
  not_directory = λ e. refl;
  no_nul = g;
  short_path = l;
  location_fits = h;
  short_data = lt;
  whole_data = λ e. absurd cc;
}

pub synced_all-IsStorable : IsStorable synced_all
synced_all-IsStorable = record {
  not_remove = λ e. cc;
  not_directory = λ e. refl;
  no_nul = tt;
  short_path = omega arith;
  location_fits = omega arith;
  short_data = omega arith;
  whole_data = λ e. refl;
}

pub checkpoint_marker-IsStorable : IsStorable checkpoint_marker
checkpoint_marker-IsStorable = record {
  not_remove = λ e. cc;
  not_directory = λ e. refl;
  no_nul = tt;
  short_path = omega arith;
  location_fits = omega arith;
  short_data = omega arith;
  whole_data = λ e. refl;
}
