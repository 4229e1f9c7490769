-- ===== src/ChangeLog/Reading.antt =====
-- Reading one entry of the change file (the inner loop of `Tester::GetChangeData`,
-- src/utils/Tester.cpp).
use panda_scratchpad.Base.{
  ℕ, zero, suc, ◌+◌, ◌-◌, ◌≤◌, ◌<◌, ◌≡◌, ◌∙◌, ap, true, [], ◌∷◌, ◌++◌, arith, ltb-eq_true,
  ltb-eq_false, leb-eq_true, length, take, drop, take_prefix, drop_prefix, take_append_le,
  drop_append_le, take-append-drop, length-append, length-drop, append_assoc, append-nil,
}
use panda_scratchpad.Base.Words.{Bytes, of_be, to_be, of_be-to_be, length-to_be}
use panda_scratchpad.Base.Outcome.{ok}
use panda_scratchpad.Base.Memory.{Allocator}
use panda_scratchpad.DiskMod.{DiskMod}
use panda_scratchpad.DiskMod.Layout.{layout, header_bytes, change_bytes, IsStorable}
use panda_scratchpad.DiskMod.Serialize.{length-layout, layout_small}
use panda_scratchpad.DiskMod.Roundtrip.{wire_view, deserialize-layout}
use panda_scratchpad.ChangeLog.{FileIo, IsReliable, read_loop, read_entry}

split_lengths :
    (n : ℕ) (got whole : Bytes)
    → length (got ++ take n whole) + length (drop n whole) ≡ length got + length whole
split_lengths n got whole = omega (
  arith,
  length-append got (take n whole),
  length-append (take n whole) (drop n whole),
  ap length (take-append-drop n whole),
)

module _ (mem : Allocator) (io : FileIo) (r : IsReliable io) where
  read_loop-ok :
      (fuel size : ℕ) (got body rest : Bytes)
      → length got + length body ≡ size
      → length body < fuel
      → read_loop mem io fuel size got (body ++ rest) ≡ (ok (got ++ body), rest)
  unfolding read_loop
  read_loop-ok zero size got body rest e f = absurd (omega arith)
  read_loop-ok (suc fuel) size got [] rest e f =
      rw (ltb-eq_false (length got) size (omega arith), append-nil)
  read_loop-ok (suc fuel) size got (b ∷ body) rest e f =
      let left : Bytes = b ∷ body ++ rest in
      let whole : Bytes = b ∷ body in
      let (k, res, hi, fits) =
        r.read_some (length left) (size - length got) (omega arith) (omega arith) in
      let inside : suc k ≤ length whole = omega arith in
      rw
        (
          ltb-eq_true (length got) size (omega arith),
          res,
          take_append_le (suc k) whole rest inside,
          drop_append_le (suc k) whole rest inside,
        )
        (read_loop-ok fuel size (got ++ take (suc k) whole) (drop (suc k) whole) rest
            (split_lengths (suc k) got whole ∙ e) (omega (arith, length-drop (suc k) whole))
          ∙ rw (append_assoc, take-append-drop))

  module _ (dm : DiskMod) (rest : Bytes) (s : IsStorable dm) where
    abbrev size : ℕ
    size = 12 + length (change_bytes dm)

    abbrev body : Bytes
    body = header_bytes dm ++ change_bytes dm

    take-layout : take 8 (layout dm ++ rest) ≡ to_be 8 size
    take-layout =
        rw append_assoc (take_prefix 8 (to_be 8 size) (body ++ rest) (length-to_be 8 size))

    drop-layout : drop 8 (layout dm ++ rest) ≡ body ++ rest
    drop-layout =
        rw append_assoc (drop_prefix 8 (to_be 8 size) (body ++ rest) (length-to_be 8 size))

    size_back : of_be (to_be 8 size) ≡ size
    size_back = of_be-to_be 8 size (omega (arith, layout_small dm s, length-layout dm s))

    -- An entry that `Serialize` laid out is read whole, and what follows it is left.
    pub read_entry-layout :
        mem.can_alloc (length (layout dm)) ≡ true
        → mem.can_alloc dm.file_mod_len ≡ true
        → read_entry mem io (take 8 (layout dm ++ rest)) (drop 8 (layout dm ++ rest))
          ≡ (ok (wire_view dm), rest)
    unfolding read_entry
    read_entry-layout can can' =
        let total : length (to_be 8 size) + length body ≡ size =
          omega (arith, length-append (to_be 8 size) body, length-layout dm s) in
        let alloc : mem.can_alloc size ≡ true = rw (length-layout dm s) at can in
        rw (
          take-layout,
          drop-layout,
          size_back,
          leb-eq_true 8 size (omega arith),
          alloc,
          read_loop-ok (size + 1) size (to_be 8 size) body rest total (omega arith),
          deserialize-layout mem dm s can',
        )
