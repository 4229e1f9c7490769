-- ===== src/Checker/Scan/Mirror.antt =====
-- `get_contents` of src/checker/DiskContents.cpp on two mounted file systems that look the same below
-- their mount points.
use panda_scratchpad.Base.{
  ℕ, zero, suc, ◌≡◌, refl, ap, ◌∙◌, inl, inr, false, List, [], ◌∷◌, ◌++◌, arith, Option-cases,
  drop_append, append_assoc,
}
use mathlib.Core.Option
use mathlib.Core.Path.{fun_ext}
use panda_scratchpad.Base.Words.{Bytes}
use panda_scratchpad.Base.Texts.{codes}
use panda_scratchpad.Base.Maps.{insert}
use panda_scratchpad.Base.Outcome.{Outcome, ◌>>=◌}
use panda_scratchpad.Checker.{
  Dirent, Os, FileAttributes, new_attributes, set_dir_attr, set_stat_attr, set_md5sum, first_word,
}
use panda_scratchpad.Checker.Scan.{Contents, get_entry, get_entries, get_contents}

-- The system gives the same answers below both mount points. Of what `md5sum` prints only the first
-- word is the same, since the path follows it.
pub record Mirrors (os : Os) (base snap : Bytes) : Type 0 where
  pub entries : (p : Bytes) → os.entries (base ++ p) ≡ os.entries (snap ++ p)
  pub stat : (p : Bytes) → os.stat (base ++ p) ≡ os.stat (snap ++ p)
  pub lstat : (p : Bytes) → os.lstat (base ++ p) ≡ os.lstat (snap ++ p)
  pub sum :
      (p : Bytes)
      → Option.map first_word (os.popen (codes "md5sum " ++ (base ++ p)))
        ≡ Option.map first_word (os.popen (codes "md5sum " ++ (snap ++ p)))

module _ (os : Os) (st_ino : ℕ) (base snap : Bytes) (same : Mirrors os base snap) where
  set_md5sum-eq :
      (p : Bytes) (fa : FileAttributes)
      → set_md5sum os (base ++ p) fa ≡ set_md5sum os (snap ++ p) fa
  unfolding set_md5sum
  set_md5sum-eq p fa = ground (arith, same.sum p)

  get_entry-eq :
      (below below' : Bytes → Contents → Outcome Contents) (p : Bytes) (e : Dirent) (m : Contents)
      → ((q : Bytes) (n : Contents) → below (base ++ q) n ≡ below' (snap ++ q) n)
      → get_entry os st_ino base below (base ++ p) e m
        ≡ get_entry os st_ino snap below' (snap ++ p) e m
  unfolding get_entry
  get_entry-eq below below' p e m deeper =
      let q : Bytes = p ++ (codes "/" ++ e.d_name) in
      let n : Contents =
        insert q (set_stat_attr os (snap ++ q) false (set_dir_attr e (new_attributes st_ino))) m in
      ground (
        arith,
        append_assoc base p (codes "/" ++ e.d_name),
        append_assoc snap p (codes "/" ++ e.d_name),
        drop_append base q,
        drop_append snap q,
        same.stat q,
        same.lstat q,
        set_md5sum-eq q (new_attributes st_ino),
        deeper q n,
      )

  get_entries-eq :
      (below below' : Bytes → Contents → Outcome Contents) (p : Bytes) (es : List Dirent)
      (m : Contents)
      → ((q : Bytes) (n : Contents) → below (base ++ q) n ≡ below' (snap ++ q) n)
      → get_entries os st_ino base below (base ++ p) es m
        ≡ get_entries os st_ino snap below' (snap ++ p) es m
  unfolding get_entries
  get_entries-eq below below' p [] m deeper = refl
  get_entries-eq below below' p (e ∷ es) m deeper =
      ap (λ r. r >>= λ n. get_entries os st_ino base below (base ++ p) es n)
        (get_entry-eq below below' p e m deeper)
      ∙ ap (λ k. get_entry os st_ino snap below' (snap ++ p) e m >>= k)
          (fun_ext λ n. get_entries-eq below below' p es n deeper)

  -- The scans below the two mount points give the same map, or fail in the same way.
  pub get_contents-eq :
      (fuel : ℕ) (p : Bytes) (m : Contents)
      → get_contents os st_ino base fuel (base ++ p) m
        ≡ get_contents os st_ino snap fuel (snap ++ p) m
  unfolding get_contents
  get_contents-eq zero p m = refl
  get_contents-eq (suc fuel) p m = elim (Option-cases (os.entries (snap ++ p))) [
    | inl e ↦ rw (same.entries p, get_contents, e)
    | inr (es, e) ↦
        rw (same.entries p, get_contents, e)
          (get_entries-eq (get_contents os st_ino base fuel) (get_contents os st_ino snap fuel) p es
            m (get_contents-eq fuel))
  ]
