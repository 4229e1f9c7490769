-- ===== src/DiskMod/Fields.antt =====
-- The fixed parts of a serialized DiskMod (src/wrapper/DiskMod.cpp): the header and the path.
use panda_scratchpad.Base.{
  ℕ, ◌+◌, ◌≤◌, ◌<◌, ◌≡◌, refl, ◌∙◌, [], ◌∷◌, ◌++◌, arith, length, drop, length-append, take_all,
  append_assoc,
}
use panda_scratchpad.Base.Words.{Bytes, u16, u32, to_be, length-to_be}
use panda_scratchpad.Base.Outcome.{Outcome, ok}
use panda_scratchpad.Base.Memory.{memcpy_two}
use panda_scratchpad.DiskMod.{
  DiskMod, ModType, create_mod, ModOpts, none_opt, type_code, opts_code, serialize_header,
  bool_byte, serialize_change_header, check_res,
}
use panda_scratchpad.DiskMod.Layout.{header_bytes, path_bytes}

-- `f` writes `bs` behind a prefix `xs` that is already written, and reports their number.
abbrev pub Writes : (Bytes → ℕ → Outcome (Bytes × ℕ)) → Bytes → Type 0
Writes f bs =
    (xs ys : Bytes) (off : ℕ)
    → off ≡ length xs
    → length bs ≤ length ys
    → f (xs ++ ys) off ≡ ok ((xs ++ bs) ++ drop (length bs) ys, length bs)

u16-type_code : (t : ModType) → u16 (type_code t) ≡ type_code t
u16-type_code create_mod = refl
u16-type_code _ = refl

u16-opts_code : (o : ModOpts) → u16 (opts_code o) ≡ opts_code o
u16-opts_code none_opt = refl
u16-opts_code _ = refl

module _ (dm : DiskMod) where
  pub length-header_bytes : length (header_bytes dm) ≡ 4
  length-header_bytes =
      length-append (to_be 2 (type_code dm.mod_type)) (to_be 2 (opts_code dm.mod_opts))
      ∙ omega (arith, length-to_be)

  pub serialize_header-Writes : Writes (λ buf off. serialize_header buf off dm) (header_bytes dm)
  unfolding serialize_header
  serialize_header-Writes xs ys off e h =
      rw (u16-type_code dm.mod_type, u16-opts_code dm.mod_opts)
        (memcpy_two xs ys (to_be 2 (type_code dm.mod_type)) (to_be 2 (opts_code dm.mod_opts)) off
            (off + 2) (λ buf. ok (buf, 4)) e (omega (arith, length-to_be)) h
          ∙ rw length-header_bytes)

  pub length-path_bytes : length (path_bytes dm) ≡ length dm.path + 2
  length-path_bytes = length-append dm.path (0 ∷ bool_byte dm.directory_mod ∷ [])

  path_bytes_split : (dm.path ++ 0 ∷ []) ++ bool_byte dm.directory_mod ∷ [] ≡ path_bytes dm
  path_bytes_split = append_assoc dm.path (0 ∷ []) (bool_byte dm.directory_mod ∷ [])

module _ (dm : DiskMod) (short : length dm.path < 2147483600) where
  pub serialize_change_header-Writes :
      Writes (λ buf off. serialize_change_header buf off dm) (path_bytes dm)
  unfolding serialize_change_header
  serialize_change_header-Writes xs ys off e h =
      let n : length (dm.path ++ 0 ∷ []) ≡ length dm.path + 1 = length-append dm.path (0 ∷ []) in
      let size : u32 (length dm.path + 1) ≡ length dm.path + 1 = omega (arith, short) in
      rw (size, take_all (length dm.path + 1) (dm.path ++ 0 ∷ []) (omega arith))
        (memcpy_two xs ys (dm.path ++ 0 ∷ []) (bool_byte dm.directory_mod ∷ []) off
            (off + (length dm.path + 1)) (λ buf. ok (buf, length dm.path + 1 + 1)) e (omega arith)
            (rw (path_bytes_split dm) h)
          ∙ (let two : length dm.path + 1 + 1 ≡ length dm.path + 2 = omega arith in
              rw (path_bytes_split dm, length-path_bytes dm, two)))

pub check_res-ok : (buf : Bytes) (n : ℕ) → n < 2147483648 → check_res (buf, n) ≡ ok (buf, n)
unfolding check_res
check_res-ok buf n h = ground arith
