-- ===== src/DiskMod/Reads.antt =====
-- What the parts of `Deserialize` (src/wrapper/DiskMod.cpp) read from the parts of the layout.
use panda_scratchpad.Base.{
  ℕ, suc, ◌-◌, Bool-cases, inl, inr, length-append, length-replicate, replicate, ◌+◌, ◌<◌, ◌^◌, ◌≡◌,
  refl, ◌∙◌, ap, sym, Bool, true, false, not, Option, none, some, [], ◌∷◌, ◌++◌, arith, length,
  drop, append_assoc, append-nil, drop_append, ltb, ◌==◌,
}
use panda_scratchpad.Base.Words.{Bytes, to_be, length-to_be, of_be-to_be, of_be_one}
use panda_scratchpad.Base.Texts.{c_str, c_str-append, Without}
use panda_scratchpad.Base.Outcome.{ok}
use panda_scratchpad.Base.Memory.{memcpy, memcpy_at, read_bytes, read_bytes_append}
use panda_scratchpad.DiskMod.{
  ModType, create_mod, ModOpts, none_opt, type_code, opts_code, bool_byte,
}
use panda_scratchpad.DiskMod.Layout.{data_bytes, NoNul}
use panda_scratchpad.DiskMod.Deserialize.{type_of_code, opts_of_code, add_tmp, read_path, read_be}

pub type_of_code-type_code : (t : ModType) → type_of_code (type_code t) ≡ ok t
type_of_code-type_code create_mod = refl
type_of_code-type_code _ = refl

pub opts_of_code-opts_code : (o : ModOpts) → opts_of_code (opts_code o) ≡ ok o
opts_of_code-opts_code none_opt = refl
opts_of_code-opts_code _ = refl

pub type_code_small : (t : ModType) → type_code t < 65536
type_code_small create_mod = omega arith
type_code_small _ = omega arith

pub opts_code_small : (o : ModOpts) → opts_code o < 65536
opts_code_small none_opt = omega arith
opts_code_small _ = omega arith

NoNul-Without : (s : Bytes) → NoNul s → Without 0 s
NoNul-Without [] h = tt
NoNul-Without (b ∷ s) h = (h.0, NoNul-Without s h.1)

NoNul-append : (s t : Bytes) → NoNul s → NoNul t → NoNul (s ++ t)
NoNul-append [] t h k = k
NoNul-append (b ∷ s) t h k = (h.0, NoNul-append s t h.1 k)

-- The buffer with the bytes that are in use in front.
abbrev pub holding : Bytes → Bytes
holding used = used ++ replicate (128 - length used) 0

c_str-holding : (used : Bytes) → length used < 128 → NoNul used → c_str (holding used) ≡ used
unfolding c_str
c_str-holding used l h =
    let room : 128 - length used ≡ suc (127 - length used) = omega arith in
    rw room (
      c_str-append used (0 ∷ replicate (127 - length used) 0) (NoNul-Without used h)
      ∙ rw append-nil)

add_tmp-holding :
    (path used : Bytes)
    → length used < 128
    → NoNul used
    → add_tmp path (holding used) ≡ ok (path ++ used)
unfolding add_tmp
add_tmp-holding path used l h =
    let read : c_str (holding used) ≡ used = c_str-holding used l h in
    let inside : ltb (length used) (length (holding used)) ≡ true = ground (
      arith,
      length-append used (replicate (128 - length used) 0),
      length-replicate {A = ℕ} (128 - length used) 0,
    ) in
    rw (read, inside)

memcpy-holding :
    (used : Bytes) (b : ℕ)
    → length used < 128
    → memcpy (holding used) (length used) (b ∷ []) ≡ ok (holding (used ++ b ∷ []))
memcpy-holding used b l =
    let room : 128 - length used ≡ suc (127 - length used) = omega arith in
    let len : length (used ++ b ∷ []) ≡ length used + 1 = length-append used (b ∷ []) in
    let left : 128 - (length used + 1) ≡ 127 - length used = omega arith in
    rw (
      room,
      memcpy_at used (replicate (suc (127 - length used)) 0) (b ∷ []) (length used) refl
          (omega (arith, length-replicate {A = ℕ} (suc (127 - length used)) 0)),
      len,
      left,
    )

-- The loop reads a path without NUL that is followed by a NUL whole, whatever its length, with fewer
-- than 127 bytes without NUL in use in its 128-byte buffer, and stops behind the NUL. No byte is written
-- or read outside the buffer.
pub read_path-append :
    (p used path rest : Bytes)
    → NoNul p
    → NoNul used
    → length used < 127
    → read_path (holding used) (length used) path (p ++ 0 ∷ rest) ≡ ok (path ++ (used ++ p), rest)
unfolding read_path
read_path-append [] used path rest h k l =
    rw (add_tmp-holding path used (omega arith) k, append-nil)
read_path-append (b ∷ p) used path rest h k l =
    let some_byte : (b == 0) ≡ false = ground arith in
    let kept : NoNul (used ++ b ∷ []) = NoNul-append used (b ∷ []) k (h.0, tt) in
    let len : length (used ++ b ∷ []) ≡ length used + 1 = length-append used (b ∷ []) in
    elim (Bool-cases (length used + 1 == 127)) [
      | inl q ↦
          let whole : length (used ++ b ∷ []) < 128 = ground (arith, len) in
          rw (
            read_path,
            some_byte,
            memcpy-holding used b (omega arith),
            q,
            add_tmp-holding path (used ++ b ∷ []) whole kept,
            read_path-append p [] (path ++ (used ++ b ∷ [])) rest h.1 tt (omega arith),
            append_assoc path (used ++ b ∷ []) p,
            append_assoc used (b ∷ []) p,
          )
      | inr q ↦
          let more : length (used ++ b ∷ []) < 127 = ground (arith, len) in
          rw (
            read_path,
            some_byte,
            memcpy-holding used b (omega arith),
            q,
            ← len,
            read_path-append p (used ++ b ∷ []) path rest h.1 kept more,
            append_assoc used (b ∷ []) p,
          )
    ]

pub read_be-append :
    (k v : ℕ) (rest : Bytes) → v < 256 ^ k → read_be k (to_be k v ++ rest) ≡ ok (v, rest)
read_be-append k v rest h =
    rw (read_bytes_append k (to_be k v) rest (length-to_be k v), of_be-to_be k v h)

pub flag_back : (b : Bool) → not (bool_byte b == 0) ≡ b
flag_back true = refl
flag_back false = refl

pub read_flag : (b : ℕ) (rest : Bytes) → read_be 1 (b ∷ rest) ≡ ok (b, rest)
read_flag b rest = rw (read_bytes_append 1 (b ∷ []) rest refl, of_be_one b)

pub drop-to_be : (v : ℕ) (bs : Bytes) → drop 8 (to_be 8 v ++ bs) ≡ bs
drop-to_be v bs =
    ap (λ n. drop n (to_be 8 v ++ bs)) (sym (length-to_be 8 v)) ∙ drop_append (to_be 8 v) bs

pub read_data :
    (d : Option Bytes) (len : ℕ)
    → length (data_bytes d) ≡ len
    → ltb 0 len ≡ true
    → (bs : Bytes) × (read_bytes len (data_bytes d) ≡ ok (bs, [])) × (d ≡ some bs)
read_data none len e h = absurd (ground arith)
read_data (some bs) len e h =
    (bs, ap (read_bytes len) (sym (append-nil bs)) ∙ read_bytes_append len bs [] e, refl)
