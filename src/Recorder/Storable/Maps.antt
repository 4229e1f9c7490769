-- ===== src/Recorder/Storable/Maps.antt =====
-- The maps of a recorder (src/wrapper/wrapper.cpp).
use panda_scratchpad.Base.{
  Option-cases, ℕ, ◌+◌, ◌<◌, ◌≡◌, Bool, true, false, ◌&&◌, some, [], ◌∷◌, inl, inr, if◌then◌else◌,
  ltb, leb, ◌==◌, arith, Bool-cases,
}
use mathlib.Core.Path.{subst}
use mathlib.Core.Option.{some-injective}
use panda_scratchpad.Base.Int.{eq_ℤ, ℤ, pos, negsuc}
use panda_scratchpad.Base.Words.{Bytes, u32}
use panda_scratchpad.Recorder.{to_u64, Mapping}
use panda_scratchpad.Recorder.Tables.{
  FdMap, MmapMap, lookup_fd, insert_fd, erase_fd, lookup_mapping, insert_mapping, erase_mapping,
}
use panda_scratchpad.Recorder.Mappings.{find_mapping}
use panda_scratchpad.Recorder.Storable.{IsGoodPath, GoodFds, GoodMappings}

pub to_u64_fits : (z : ℤ) → to_u64 z < 18446744073709551616
to_u64_fits (pos n) = omega arith
to_u64_fits (negsuc n) = omega arith

pub offset_fits :
    (dir : Bool) (offset : ℤ) → (if dir then 0 else to_u64 offset) < 18446744073709551616
offset_fits true offset = omega arith
offset_fits false offset = to_u64_fits offset

pub GoodFds-lookup_fd :
    (m : FdMap) (fd : ℤ) (p : Bytes) → GoodFds m → lookup_fd fd m ≡ some p → IsGoodPath p
unfolding lookup_fd
GoodFds-lookup_fd [] fd p g e = absurd cc
GoodFds-lookup_fd ((k, q) ∷ m) fd p (g, gs) e = elim (Bool-cases (eq_ℤ k fd)) [
  | inl c ↦ let found : some q ≡ some p = rw c at e in subst IsGoodPath (some-injective q p found) g
  | inr c ↦ GoodFds-lookup_fd m fd p gs (rw c at e)
]

pub GoodFds-insert_fd :
    (m : FdMap) (fd : ℤ) (p : Bytes) → GoodFds m → IsGoodPath p → GoodFds (insert_fd fd p m)
unfolding insert_fd
GoodFds-insert_fd m fd p g h = elim (Option-cases (lookup_fd fd m)) [
  | inl l ↦ rw (insert_fd, l) (h, g)
  | inr (q, l) ↦ rw (insert_fd, l) g
]

pub GoodFds-erase_fd : (m : FdMap) (fd : ℤ) → GoodFds m → GoodFds (erase_fd fd m)
unfolding erase_fd
GoodFds-erase_fd [] fd g = tt
GoodFds-erase_fd ((k, q) ∷ m) fd (g, gs) = elim (Bool-cases (eq_ℤ k fd)) [
  | inl c ↦ rw (erase_fd, c) (GoodFds-erase_fd m fd gs)
  | inr c ↦ rw (erase_fd, c) (g, GoodFds-erase_fd m fd gs)
]

pub GoodMappings-insert_mapping :
    (m : MmapMap) (addr : ℕ) (v : Mapping)
    → GoodMappings m
    → IsGoodPath v.path
    → GoodMappings (insert_mapping addr v m)
unfolding insert_mapping
GoodMappings-insert_mapping m addr v g h = elim (Option-cases (lookup_mapping addr m)) [
  | inl l ↦ rw (insert_mapping, l) (h, g)
  | inr (q, l) ↦ rw (insert_mapping, l) g
]

pub GoodMappings-erase_mapping :
    (m : MmapMap) (addr : ℕ) → GoodMappings m → GoodMappings (erase_mapping addr m)
unfolding erase_mapping
GoodMappings-erase_mapping [] addr g = tt
GoodMappings-erase_mapping ((k, v) ∷ m) addr (g, gs) = elim (Bool-cases (k == addr)) [
  | inl c ↦ rw (erase_mapping, c) (GoodMappings-erase_mapping m addr gs)
  | inr c ↦ rw (erase_mapping, c) (g, GoodMappings-erase_mapping m addr gs)
]

pub GoodMappings-find_mapping :
    (m : MmapMap) (addr k : ℕ) (v : Mapping)
    → GoodMappings m
    → find_mapping addr m ≡ some (k, v)
    → IsGoodPath v.path
unfolding find_mapping
GoodMappings-find_mapping [] addr k v g e = absurd cc
GoodMappings-find_mapping ((l, u) ∷ m) addr k v (g, gs) e =
    elim (Bool-cases (leb l addr && ltb addr (l + u32 u.length))) [
      | inl c ↦
          let found : some (l, u) ≡ some (k, v) = rw c at e in
          subst (λ x. IsGoodPath x.1.path) (some-injective (l, u) (k, v) found) g
      | inr c ↦ GoodMappings-find_mapping m addr k v gs (rw c at e)
    ]
