-- ===== src/Checker/Compare/Agreement.antt =====
-- When `compare_disk_contents` of src/checker/DiskContents.cpp finds no difference: what its tests
-- and its loop come to.
use panda_scratchpad.Base.{
  ◌≡◌, refl, ◌≢◌, ◌↔◌, inl, inr, Bool, true, false, Option, none, some, [], ◌∷◌, ◌++◌, ◌==◌, length,
  if◌then◌else◌, arith, Option-cases, Bool-cases, append-nil, ◌∙◌,
}
use panda_scratchpad.Base.Words.{Bytes}
use panda_scratchpad.Base.Texts.{text_eq, text_eq_iff, text_eq_refl}
use panda_scratchpad.Base.Maps.{lookup, IsMap, KeysIn, length-le, lookup-eq_none, lookup-KeysIn}
use panda_scratchpad.DiskMod.{Stat}
use panda_scratchpad.Checker.{
  Dirent, FileAttributes, DiskContents, compare_dir_attr, compare_stat_attr, compare_md5sum,
  is_regular_file,
}
use panda_scratchpad.Checker.Scan.{Contents}
use panda_scratchpad.Checker.Compare.{Diff, compare_entry, compare_loop, compare_maps}

-- Two files with the same attributes and, if they are regular, with the same sum.
pub record Matches (a b : FileAttributes) : Type 0 where
  pub same_dir : a.dir_attr ≡ b.dir_attr
  pub same_stat : a.stat_attr ≡ b.stat_attr
  pub same_sum : is_regular_file a ≡ true → a.md5sum ≡ b.md5sum

abbrev pub SameEntry : Option FileAttributes → Option FileAttributes → Type 0
SameEntry none none = Unit {0}
SameEntry (some a) (some b) = Matches a b
SameEntry none (some b) = ⊥
SameEntry (some a) none = ⊥

-- Both maps have the same paths, with files that match.
abbrev pub Agree : Contents → Contents → Type 0
Agree m n = (path : Bytes) → SameEntry (lookup path m) (lookup path n)

compare_dir_attr_iff :
    (fa : FileAttributes) (a : Dirent) → (compare_dir_attr fa a ≡ true) ↔ (fa.dir_attr ≡ a)
unfolding compare_dir_attr
compare_dir_attr_iff fa a = (
  λ h. ground (arith, text_eq_iff fa.dir_attr.d_name a.d_name),
  λ e. rw (← e) (ground (arith, text_eq_refl fa.dir_attr.d_name)),
)

pub compare_stat_attr_iff :
    (fa : FileAttributes) (a : Stat) → (compare_stat_attr fa a ≡ true) ↔ (fa.stat_attr ≡ a)
unfolding compare_stat_attr
compare_stat_attr_iff fa a = (λ h. ground arith, λ e. rw (← e) (ground arith))

-- A file of the other map that matches.
abbrev Found : Contents → Bytes → FileAttributes → Type 0
Found other path a = (b : FileAttributes) × (lookup path other ≡ some b) × Matches a b

abbrev AllFound : Contents → Contents → Type 0
AllFound other [] = Unit {0}
AllFound other ((path, a) ∷ m) = Found other path a × AllFound other m

compare_entry-Found :
    (disk path : Bytes) (other : Contents) (a : FileAttributes)
    → (compare_entry disk other path a).0 ≡ true
    → Found other path a
unfolding compare_entry compare_md5sum
compare_entry-Found disk path other a h = elim (Option-cases (lookup path other)) [
  | inl e ↦ absurd (ground (arith, e))
  | inr (b, e) ↦ (
    b,
    e,
    ground (
      arith,
      e,
      compare_dir_attr_iff a b.dir_attr,
      compare_stat_attr_iff a b.stat_attr,
      text_eq_iff a.md5sum b.md5sum,
    ),
  )
]

Found-compare_entry :
    (disk path : Bytes) (other : Contents) (a : FileAttributes)
    → Found other path a
    → (compare_entry disk other path a).0 ≡ true
unfolding compare_entry compare_md5sum
Found-compare_entry disk path other a (b, e, m) = ground (
  arith,
  e,
  compare_dir_attr_iff a b.dir_attr,
  compare_stat_attr_iff a b.stat_attr,
  text_eq_iff a.md5sum b.md5sum,
)

compare_loop-AllFound :
    (disk : Bytes) (other m : Contents) (ret : Bool) (diff : Diff)
    → (compare_loop disk other m ret diff).0 ≡ true
    → (ret ≡ true) × AllFound other m
unfolding compare_loop
compare_loop-AllFound disk other [] ret diff h = (h, tt)
compare_loop-AllFound disk other ((path, a) ∷ m) ret diff h =
    let agrees = compare_entry disk other path a in
    let (here, found) =
      compare_loop-AllFound disk other m (if agrees.0 then ret else false) (diff ++ agrees.1) h in
    let both : (agrees.0 ≡ true) × (ret ≡ true) = ground (arith, here) in
    (both.1, (compare_entry-Found disk path other a both.0, found))

AllFound-compare_loop :
    (disk : Bytes) (other m : Contents) (diff : Diff)
    → AllFound other m
    → (compare_loop disk other m true diff).0 ≡ true
unfolding compare_loop
AllFound-compare_loop disk other [] diff h = refl
AllFound-compare_loop disk other ((path, a) ∷ m) diff h =
    rw (Found-compare_entry disk path other a h.0, compare_loop)
      (AllFound-compare_loop disk other m (diff ++ (compare_entry disk other path a).1) h.1)

AllFound-KeysIn : (other m : Contents) → AllFound other m → KeysIn m other
AllFound-KeysIn other [] h = tt
AllFound-KeysIn other ((path, a) ∷ m) h =
    let (b, e, _) = h.0 in (λ n. cc, AllFound-KeysIn other m h.1)

AllFound-lookup :
    (other m : Contents) (path : Bytes) (a : FileAttributes)
    → AllFound other m
    → lookup path m ≡ some a
    → Found other path a
unfolding lookup
AllFound-lookup other [] path a h e = absurd (ground arith)
AllFound-lookup other ((p, b) ∷ m) path a h e = elim (Bool-cases (text_eq p path)) [
  | inl q ↦
      let same : p ≡ path = (text_eq_iff p path).0 q in
      let it : b ≡ a = ground (arith, e) in rw (← same, ← it) h.0
  | inr q ↦
      let later : lookup path m ≡ some a = ground (arith, e) in
      AllFound-lookup other m path a h.1 later
]

AllFound-Agree :
    (m other : Contents)
    → IsMap m
    → IsMap other
    → length m ≡ length other
    → AllFound other m
    → Agree m other
AllFound-Agree m other i j e h path = elim (Option-cases (lookup path m)) [
  | inl n ↦ rw (n, lookup-eq_none path m other i j e (AllFound-KeysIn other m h) n) tt
  | inr (a, f) ↦ let (b, g, same) = AllFound-lookup other m path a h f in rw (f, g) same
]

lookup-AllFound :
    (other m : Contents)
    → IsMap m
    → ((path : Bytes) (a : FileAttributes) → lookup path m ≡ some a → Found other path a)
    → AllFound other m
unfolding lookup
lookup-AllFound other [] i h = tt
lookup-AllFound other ((p, a) ∷ m) i h = (
  h p a (rw (text_eq_refl p)),
  lookup-AllFound other m i.1 (λ path b e. h path b (later path b e)),
)
  where
    later :
        (path : Bytes) (b : FileAttributes)
        → lookup path m ≡ some b
        → lookup path ((p, a) ∷ m) ≡ some b
    later path b e = ground (arith, e, i.0, text_eq_iff p path)

Agree-Found :
    (m other : Contents) (path : Bytes) (a : FileAttributes)
    → Agree m other
    → lookup path m ≡ some a
    → Found other path a
Agree-Found m other path a h e =
    let same : SameEntry (some a) (lookup path other) = rw (← e) (h path) in
    elim (Option-cases (lookup path other)) [
      | inl n ↦ absurd (rw n at same)
      | inr (b, f) ↦ (b, f, rw f at same)
    ]

SameEntry-sym_none : (a b : Option FileAttributes) → SameEntry a b → b ≢ none → a ≢ none
SameEntry-sym_none none none s n = n
SameEntry-sym_none none (some b) s n = absurd s
SameEntry-sym_none (some a) b s n = λ e. cc

-- `compare_disk_contents`, once both maps are read, is true exactly if the maps have the same paths,
-- with the same attributes, and regular files with the same sum, whatever was said before.
pub compare_maps-Agree :
    (disk other : DiskContents) (diff : Diff)
    → IsMap disk.contents
    → IsMap other.contents
    → ((compare_maps disk other diff).0 ≡ true) ↔ Agree disk.contents other.contents
unfolding compare_maps
compare_maps-Agree disk other diff i j = (agree, find_none)
  where
    m : Contents
    m = disk.contents

    n : Contents
    n = other.contents

    agree : (compare_maps disk other diff).0 ≡ true → Agree m n
    agree h =
        let (sizes, found) = compare_loop-AllFound disk.disk_path n m (length m == length n) _ h in
        let same_size : length m ≡ length n = ground arith in AllFound-Agree m n i j same_size found

    find_none : Agree m n → (compare_maps disk other diff).0 ≡ true
    find_none h =
        let found : AllFound n m = lookup-AllFound n m i (λ path a e. Agree-Found m n path a h e) in
        let back : KeysIn n m =
          lookup-KeysIn n m (λ k f. SameEntry-sym_none (lookup k m) (lookup k n) (h k) f) in
        let same_size : (length m == length n) ≡ true =
          ground (arith, length-le m n i j (AllFound-KeysIn n m found), length-le n m j i back) in
        rw (same_size, compare_maps) (AllFound-compare_loop disk.disk_path n m diff found)

pub Agree-refl : (m : Contents) → Agree m m
Agree-refl m path = elim (Option-cases (lookup path m)) [
  | inl e ↦ rw e tt
  | inr (a, e) ↦ rw e (record { same_dir = refl; same_stat = refl; same_sum = λ _. refl })
]

compare_entry-silent :
    (disk path : Bytes) (other : Contents) (a : FileAttributes)
    → (compare_entry disk other path a).0 ≡ true
    → (compare_entry disk other path a).1 ≡ []
unfolding compare_entry
compare_entry-silent disk path other a h = ground arith

compare_loop-silent :
    (disk : Bytes) (other m : Contents) (ret : Bool) (diff : Diff)
    → (compare_loop disk other m ret diff).0 ≡ true
    → (compare_loop disk other m ret diff).1 ≡ diff
unfolding compare_loop
compare_loop-silent disk other [] ret diff h = refl
compare_loop-silent disk other ((path, a) ∷ m) ret diff h =
    let agrees = compare_entry disk other path a in
    let (here, _) =
      compare_loop-AllFound disk other m (if agrees.0 then ret else false) (diff ++ agrees.1) h in
    let matches : agrees.0 ≡ true = ground (arith, here) in
    compare_loop-silent disk other m (if agrees.0 then ret else false) (diff ++ agrees.1) h
    ∙ rw (compare_entry-silent disk path other a matches, append-nil)

-- A comparison that succeeds says nothing.
pub compare_maps-silent :
    (disk other : DiskContents) (diff : Diff)
    → (compare_maps disk other diff).0 ≡ true
    → (compare_maps disk other diff).1 ≡ diff
unfolding compare_maps
compare_maps-silent disk other diff h =
    let same_size = length disk.contents == length other.contents in
    let (sizes, _) =
      compare_loop-AllFound disk.disk_path other.contents disk.contents same_size _ h in
    compare_loop-silent disk.disk_path other.contents disk.contents same_size _ h ∙ rw sizes
