-- ===== src/Checker/Compare/Disks.antt =====
-- `compare_disk_contents` of src/checker/DiskContents.cpp as a whole: the scans and the comparison.
use panda_scratchpad.Base.{
  ℕ, ◌<◌, ◌≡◌, refl, sym, ap, ◌∙◌, ◌↔◌, inl, inr, true, false, [], ◌++◌, Bool-cases, append-nil,
}
use panda_scratchpad.Base.Words.{Bytes}
use panda_scratchpad.Base.Texts.{text_eq}
use panda_scratchpad.Base.Maps.{IsMap}
use panda_scratchpad.Base.Outcome.{ok, Returns, >>=-Returns, Returns-ok}
use panda_scratchpad.Checker.{Os, DiskContents}
use panda_scratchpad.Checker.Scan.{Contents, get_contents}
use panda_scratchpad.Checker.Scan.Depth.{HasDepth, HasSums, get_contents-Returns}
use panda_scratchpad.Checker.Scan.Mirror.{Mirrors, get_contents-eq}
use panda_scratchpad.Checker.Compare.{
  Diff, Comparison, base_path, compare_maps, compare_disk_contents,
}
use panda_scratchpad.Checker.Compare.Agreement.{
  Agree, compare_maps-Agree, Agree-refl, compare_maps-silent,
}

-- The scans of the mount points themselves.
mirrored :
    (os : Os) (st_ino : ℕ) (snap : Bytes) (fuel : ℕ)
    → Mirrors os base_path snap
    → get_contents os st_ino base_path fuel base_path [] ≡ get_contents os st_ino snap fuel snap []
mirrored os st_ino snap fuel same =
    let here : base_path ++ [] ≡ base_path = append-nil base_path in
    let there : snap ++ [] ≡ snap = append-nil snap in
    rw (here, there) at (get_contents-eq os st_ino base_path snap same fuel [] [])

module _ (os : Os) (sums : HasSums os) (depth : Bytes → ℕ) (less : HasDepth os depth)
    (st_ino fuel : ℕ) (disk other : DiskContents) (diff : Diff) (mine_deep : depth base_path < fuel)
    (theirs_deep : depth other.mount_point < fuel) where
  -- For two disks with different paths, on a system on which each path has a sum, and whose
  -- directories below both mount points are less deep than the fuel: the comparison returns, and it
  -- is true exactly if the maps that it leaves have the same paths, with the same attributes, and
  -- regular files with the same sums.
  pub compare_disk_contents-Agree :
      IsMap disk.contents
      → IsMap other.contents
      → text_eq disk.disk_path other.disk_path ≡ false
      → Returns
          (λ c. (c.result ≡ true) ↔ Agree c.disk.contents c.other.contents)
          (compare_disk_contents os st_ino fuel disk other diff)
  unfolding compare_disk_contents
  compare_disk_contents-Agree i j differ =
      rw (compare_disk_contents, differ)
        (>>=-Returns IsMap _ (get_contents os st_ino disk.mount_point fuel base_path disk.contents)
          _
          (get_contents-Returns os sums st_ino disk.mount_point depth less fuel base_path
            disk.contents mine_deep i)
          (λ mine im.
            >>=-Returns IsMap _
              (get_contents os st_ino other.mount_point fuel other.mount_point other.contents) _
              (get_contents-Returns os sums st_ino other.mount_point depth less fuel
                other.mount_point other.contents theirs_deep j)
              (λ theirs it.
                compare_maps-Agree (record disk { contents = mine })
                  (record other { contents = theirs }) diff im it)))

  -- The comparison of two mounted disks that look the same, with what it leaves in the first object.
  pub compare_disk_contents-scanned :
      disk.mount_point ≡ base_path
      → disk.contents ≡ []
      → other.contents ≡ []
      → Mirrors os base_path other.mount_point
      → text_eq disk.disk_path other.disk_path ≡ false
      → (m : Contents) × (get_contents os st_ino base_path fuel base_path [] ≡ ok m)
        × ((c : Comparison) × (compare_disk_contents os st_ino fuel disk other diff ≡ ok c)
            × (c.result ≡ true)
            × (c.diff ≡ diff)
            × (c.disk ≡ record disk { contents = m }))
  unfolding compare_disk_contents
  compare_disk_contents-scanned at e f same differ =
      let scan = get_contents os st_ino base_path fuel base_path [] in
      let (m, q, i) =
        Returns-ok IsMap scan (
          get_contents-Returns os sums st_ino base_path depth less fuel base_path [] mine_deep
            tt) in
      let mine : get_contents os st_ino disk.mount_point fuel base_path disk.contents ≡ ok m =
        ap (λ k. get_contents os st_ino k fuel base_path disk.contents) at
        ∙ (ap (λ c. get_contents os st_ino base_path fuel base_path c) e ∙ q) in
      let theirs : get_contents os st_ino other.mount_point fuel other.mount_point other.contents
          ≡ ok m =
        ap (λ c. get_contents os st_ino other.mount_point fuel other.mount_point c) f
        ∙ (sym (mirrored os st_ino other.mount_point fuel same) ∙ q) in
      let disk' = record disk { contents = m } in
      let other' = record other { contents = m } in
      let agrees : (compare_maps disk' other' diff).0 ≡ true =
        (compare_maps-Agree disk' other' diff i i).1 (Agree-refl m) in
      (
        m,
        q,
        (
          record {
            result = (compare_maps disk' other' diff).0;
            disk = disk';
            other = other';
            diff = (compare_maps disk' other' diff).1;
          },
          rw (compare_disk_contents, differ, mine, theirs) refl,
          agrees,
          compare_maps-silent disk' other' diff agrees,
          refl,
        ),
      )

  -- Two mounted disks that look the same, seen by two fresh objects, are found to be the same, and
  -- nothing is said of them.
  pub compare_disk_contents-Mirrors :
      disk.mount_point ≡ base_path
      → disk.contents ≡ []
      → other.contents ≡ []
      → Mirrors os base_path other.mount_point
      → Returns
          (λ c. (c.result ≡ true) × (c.diff ≡ diff))
          (compare_disk_contents os st_ino fuel disk other diff)
  unfolding compare_disk_contents
  compare_disk_contents-Mirrors at e f same =
      elim (Bool-cases (text_eq disk.disk_path other.disk_path)) [
        | inl equal ↦ rw (compare_disk_contents, equal) (refl, refl)
        | inr differ ↦
            let (m, scan, (c, q, found, silent, left)) =
              compare_disk_contents-scanned at e f same differ in
            rw q (found, silent)
      ]
