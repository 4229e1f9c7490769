-- ===== src/Checker/Scan/Depth.antt =====
-- `get_contents` of src/checker/DiskContents.cpp comes to an end on directories of a finite depth, with a
-- map that holds no path twice.
use panda_scratchpad.Base.{
  ℕ, zero, suc, ◌<◌, ◌≡◌, inl, inr, true, false, some, List, [], ◌∷◌, ◌++◌, ◌==◌, arith,
  Option-cases, Bool-cases, length, drop, leb,
}
use panda_scratchpad.Base.Words.{Bytes}
use panda_scratchpad.Base.Texts.{codes}
use panda_scratchpad.Base.Maps.{IsMap, insert-IsMap}
use panda_scratchpad.Base.Outcome.{Outcome, Returns, >>=-Returns}
use panda_scratchpad.Checker.{
  Dirent, Os, FileAttributes, dt_dir, dt_lnk, dt_reg, new_attributes, set_md5sum, first_word,
}
use panda_scratchpad.Checker.Scan.{Contents, is_dots, get_entry, get_entries, get_contents}

-- The directories of a list that is read in `path` are less deep.
abbrev Shrinks : (Bytes → ℕ) → Bytes → List Dirent → Type 0
Shrinks depth path [] = Unit {0}
Shrinks depth path (e ∷ es) =
    ((e.d_type == dt_dir) ≡ true
      → is_dots e.d_name ≡ false
      → depth (path ++ (codes "/" ++ e.d_name)) < depth path)
    × Shrinks depth path es

-- `depth` falls from a directory to each one in it.
abbrev pub HasDepth : Os → (Bytes → ℕ) → Type 0
HasDepth os depth =
    (path : Bytes) (es : List Dirent) → os.entries path ≡ some es → Shrinks depth path es

-- `md5sum` prints a word that fits into the buffer.
abbrev pub HasSums : Os → Type 0
HasSums os =
    (path : Bytes)
    → (out : Bytes) × (os.popen (codes "md5sum " ++ path) ≡ some out)
      × (0 < length (first_word out))
      × (length (first_word out) < 100)

set_md5sum-Returns :
    (os : Os) (path : Bytes) (fa : FileAttributes)
    → HasSums os
    → Returns (λ _. Unit {0}) (set_md5sum os path fa)
unfolding set_md5sum
set_md5sum-Returns os path fa sums =
    let (out, e, some_word, fits) = sums path in
    let w : ℕ = length (first_word out) in
    let a : (w == 0) ≡ false = ground arith in
    let b : leb 100 w ≡ false = ground arith in rw (e, set_md5sum, a, b) tt

module _ (os : Os) (sums : HasSums os) (st_ino : ℕ) (mount_point : Bytes) where
  get_entry-Returns :
      (below : Bytes → Contents → Outcome Contents) (path : Bytes) (e : Dirent) (m : Contents)
      → IsMap m
      → ((e.d_type == dt_dir) ≡ true
          → is_dots e.d_name ≡ false
          → (n : Contents) → IsMap n
          → Returns IsMap (below (path ++ (codes "/" ++ e.d_name)) n))
      → Returns IsMap (get_entry os st_ino mount_point below path e m)
  unfolding get_entry
  get_entry-Returns below path e m i deeper = elim (Option-cases (os.stat current)) [
    | inl s ↦ rw (s, get_entry) i
    | inr (statbuf, s) ↦ elim (Bool-cases (e.d_type == dt_dir)) [
      | inl d ↦ elim (Bool-cases (is_dots e.d_name)) [
        | inl b ↦ rw (s, get_entry, d, b) i
        | inr b ↦ rw (s, get_entry, d, b) (deeper d b _ (insert-IsMap relative _ m i))
      ]
      | inr d ↦ elim (Bool-cases (e.d_type == dt_lnk)) [
        | inl l ↦ elim (Option-cases (os.lstat current)) [
          | inl t ↦ rw (s, get_entry, d, l, t) i
          | inr (lstatbuf, t) ↦ rw (s, get_entry, d, l, t) (insert-IsMap relative _ m i)
        ]
        | inr l ↦ elim (Bool-cases (e.d_type == dt_reg)) [
          | inl r ↦
              rw (s, get_entry, d, l, r)
                (>>=-Returns (λ _. Unit {0}) IsMap (set_md5sum os current (new_attributes st_ino)) _
                  (set_md5sum-Returns os current (new_attributes st_ino) sums)
                  (λ fa _. insert-IsMap relative _ m i))
          | inr r ↦ rw (s, get_entry, d, l, r) (insert-IsMap relative _ m i)
        ]
      ]
    ]
  ]
    where
      current : Bytes
      current = path ++ (codes "/" ++ e.d_name)

      relative : Bytes
      relative = drop (length mount_point) current

  get_entries-Returns :
      (depth : Bytes → ℕ) (below : Bytes → Contents → Outcome Contents) (path : Bytes)
      (es : List Dirent) (m : Contents)
      → IsMap m
      → Shrinks depth path es
      → ((p : Bytes) (n : Contents) → depth p < depth path → IsMap n → Returns IsMap (below p n))
      → Returns IsMap (get_entries os st_ino mount_point below path es m)
  unfolding get_entries
  get_entries-Returns depth below path [] m i h deeper = i
  get_entries-Returns depth below path (e ∷ es) m i h deeper =
      >>=-Returns IsMap IsMap (get_entry os st_ino mount_point below path e m) _
        (get_entry-Returns below path e m i (λ d b n j. deeper _ n (h.0 d b) j))
        (λ n j. get_entries-Returns depth below path es n j h.1 deeper)

  -- If `md5sum` gives a sum for each path, a scan of a directory with less depth than fuel returns, and
  -- keeps the map one in which no path occurs twice.
  pub get_contents-Returns :
      (depth : Bytes → ℕ)
      → HasDepth os depth
      → (fuel : ℕ) (path : Bytes) (m : Contents) → depth path < fuel
      → IsMap m
      → Returns IsMap (get_contents os st_ino mount_point fuel path m)
  unfolding get_contents
  get_contents-Returns depth less zero path m h i = elim h [ ]
  get_contents-Returns depth less (suc fuel) path m h i = elim (Option-cases (os.entries path)) [
    | inl e ↦ rw (e, get_contents) i
    | inr (es, e) ↦
        rw (e, get_contents)
          (get_entries-Returns depth (get_contents os st_ino mount_point fuel) path es m i
            (less path es e) (λ p n l j. get_contents-Returns depth less fuel p n (omega arith) j))
  ]
