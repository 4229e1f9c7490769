-- ===== src/Recorder/Step/Growth/Ranges.antt =====
-- `CmFallocate` of a recorder (src/wrapper/wrapper.cpp) against `Grows`, and `fd_map_[fd]`.
use panda_scratchpad.Base.{
  ℕ, ◌≡◌, refl, true, some, none, sym, ◌∙◌, [], Option-cases, inl, inr, Bool-cases,
}
use mathlib.Core.Path.{subst}
use mathlib.Core.Option.{some-injective}
use panda_scratchpad.Base.Int.{ℤ, eq_ℤ, eq_ℤ_iff, is_neg}
use panda_scratchpad.Base.Words.{Bytes}
use panda_scratchpad.Base.Outcome.{Outcome-cases, ok}
use panda_scratchpad.DiskMod.{DiskMod, Stat, ModOpts}
use panda_scratchpad.Recorder.{FsFns, Sys}
use panda_scratchpad.Base.Texts.{c_str}
use panda_scratchpad.Recorder.Tables.{FdMap, MmapMap, insert_fd, fd_index, lookup_fd, insert_fd}
use panda_scratchpad.Recorder.Files.{fallocate_opts, cm_fallocate}
use panda_scratchpad.Recorder.Step.Growth.{
  same, negative, refused, faulted, endless, unstated, one, Keeps, allocated_range,
}

eq_ℤ_refl : (a : ℤ) → eq_ℤ a a ≡ true
eq_ℤ_refl a = (eq_ℤ_iff a a).1 refl

module _ {W : Type 0} (fd : ℤ) (s : Sys W) where
  lookup_entered :
      lookup_fd fd s.recorder.fd_map ≡ none
      → lookup_fd fd (fd_index fd s).1.recorder.fd_map ≡ some []
  unfolding fd_index insert_fd lookup_fd
  lookup_entered l = rw (fd_index, l, insert_fd, l, eq_ℤ_refl fd)

-- `fd_map_[fd]` changes no record, and what holds of an empty path and of the descriptor's holds of
-- the path that it gives, and of the descriptor's path afterwards.
module _ {W : Type 0} (fd : ℤ) (s : Sys W) (Q : Bytes → Type 0) where
  fd_index_mods :
      Q []
      → ((path : Bytes) → lookup_fd fd s.recorder.fd_map ≡ some path → Q path)
      → (path : Bytes) × ((fd_index fd s).0 ≡ ok path)
        × ((fd_index fd s).1.recorder.mods ≡ s.recorder.mods)
        × Q path
        × ((p : Bytes) → lookup_fd fd (fd_index fd s).1.recorder.fd_map ≡ some p → Q p)
  unfolding fd_index insert_fd lookup_fd
  fd_index_mods empty known = elim (Option-cases (lookup_fd fd s.recorder.fd_map)) [
    | inl l ↦ (
      [],
      rw (fd_index, l) refl,
      rw (fd_index, l) refl,
      empty,
      λ p found.
          let same_path : [] ≡ p = some-injective [] p (sym (lookup_entered fd s l) ∙ found) in
          subst Q same_path empty,
    )
    | inr (path, l) ↦
        (path, rw (fd_index, l) refl, rw (fd_index, l) refl, known path l, rw (fd_index, l) known)
  ]

module _ {W : Type 0} (fd : ℤ) (s : Sys W) (M : FdMap → MmapMap → Type 0) where
  fd_index_maps :
      ((f : FdMap) (g : MmapMap) → M f g → M (insert_fd fd [] f) g)
      → M s.recorder.fd_map s.recorder.mmap_map
      → M (fd_index fd s).1.recorder.fd_map (fd_index fd s).1.recorder.mmap_map
  unfolding fd_index
  fd_index_maps grow k = elim (Option-cases (lookup_fd fd s.recorder.fd_map)) [
    | inl l ↦ rw (fd_index, l) (grow _ _ k)
    | inr (path, l) ↦ rw (fd_index, l) k
  ]

module _ {W : Type 0} (Asked : Bytes → Type 0) (Silent : Type 0) (P : DiskMod → Type 0)
    (M : FdMap → MmapMap → Type 0) (fns : FsFns W) (s : Sys W)
    (k : M s.recorder.fd_map s.recorder.mmap_map) where
  pub fallocate-Grows :
      (Q : Bytes → Type 0) (fd : ℤ) (mode : ℕ) (offset len : ℤ)
      → Q []
      → ((path : Bytes) → lookup_fd fd s.recorder.fd_map ≡ some path → Q path)
      → ((path : Bytes) → Q path → Asked (c_str path))
      → ((path : Bytes) (pre post : Stat) (opts : ModOpts)
          → Q path
          → fallocate_opts mode ≡ ok opts
          → P (allocated_range path offset len pre post opts))
      → ((f : FdMap) (g : MmapMap) → M f g → M (insert_fd fd [] f) g)
      → Keeps Asked Silent P M fns s (cm_fallocate fns fd mode offset len)
  unfolding cm_fallocate
  fallocate-Grows Q fd mode offset len empty known a h grow =
      let k1 = fd_index_maps fd s M grow k in
      let t = (fd_index fd s).1 in
      let (p, l, m, q, known2) = fd_index_mods fd s Q empty known in
      let stat = fns.fn_stat (c_str p) t.world in
      elim (Bool-cases (is_neg stat.0.0)) [
        | inl n ↦ rw (l, n, m) (same (unstated _ _ (a p q) n), k1)
        | inr n ↦ elim (Bool-cases (is_neg (fns.fn_fallocate fd mode offset len stat.1).0)) [
          | inl e ↦ rw (l, n, e, m) (same (negative e), k1)
          | inr e ↦
              let t2 = record t { world = (fns.fn_fallocate fd mode offset len stat.1).1 } in
              let (p2, l2, m2, q2, known3) = fd_index_mods fd t2 Q empty known2 in
              let u = (fd_index fd t2).1 in
              let k2 = fd_index_maps fd t2 M grow k1 in
              let post = fns.fn_stat (c_str p2) u.world in
              elim (Bool-cases (is_neg post.0.0)) [
                | inl f ↦ rw (l, n, e, l2, f, m2, m) (same (unstated _ _ (a p2 q2) f), k2)
                | inr f ↦
                    let u2 = record u { world = post.1 } in
                    let (p3, l3, m3, q3, known4) = fd_index_mods fd u2 Q empty known3 in
                    let k3 = fd_index_maps fd u2 M grow k2 in
                    elim (Outcome-cases (fallocate_opts mode)) [
                      | inl (opts, o) ↦
                          rw (l, n, e, l2, f, l3, o, m3, m2, m)
                            (one _ (h p3 stat.0.1 post.0.1 opts q3 o) e, k3)
                      | inr (inl o) ↦ rw (l, n, e, l2, f, l3, o, m3, m2, m) (same refused, k3)
                      | inr (inr (inl o)) ↦ rw (l, n, e, l2, f, l3, o, m3, m2, m) (same faulted, k3)
                      | inr (inr (inr o)) ↦ rw (l, n, e, l2, f, l3, o, m3, m2, m) (same endless, k3)
                    ]
              ]
        ]
      ]
