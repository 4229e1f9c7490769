-- ===== src/Results/Flags.antt =====
-- The flags of `FileSystemTestResult` (src/results/FileSystemTestResult.cpp): what was set against
-- what is printed.
use panda_scratchpad.Base.{
  ℕ, zero, suc, ◌+◌, ◌/◌, ◌%◌, ◌^◌, ◌<◌, ◌≤◌, ◌≡◌, refl, Bool, true, false, not, ◌||◌, none, some,
  List, [], ◌∷◌, ◌++◌, ◌==◌, if◌then◌else◌, arith, ap, ◌∙◌, Option-cases, append_assoc, append-nil,
  Bool-cases, inl, inr,
}
use native.Mathlib.Nat.{pow-succ'}
use panda_scratchpad.Base.Outcome.{ok}
use panda_scratchpad.Results.{FsError, fs_check_not_run, fs_clean, fs_bit, set_bit, set_fs_error}
use panda_scratchpad.Results.Printing.{Stream, all_errors, error_at, put, print_loop, print_errors}
use panda_scratchpad.Results.Bits.{
  is_set, was_set, set_fs_errors, is_set-set_fs_errors, set_fs_errors_small,
}

-- The errors of `es` whose bit, counted from the first of them, is set.
abbrev flagged : List FsError → ℕ → List FsError
flagged [] x = []
flagged (e ∷ es) x = let rest = flagged es (x / 2) in if x % 2 == 1 then e ∷ rest else rest

-- The rounds of the loop that meet the next `n` bits.
abbrev put_bits : (n shift x : ℕ) → Stream → Stream
put_bits zero shift x s = s
put_bits (suc n) shift x s =
    put_bits n (shift + 1) (x / 2) (if x % 2 == 1 then put (error_at shift) s else s)

put_bits_zero : (n shift : ℕ) (s : Stream) → put_bits n shift 0 s ≡ s
put_bits_zero zero shift s = refl
put_bits_zero (suc n) shift s = put_bits_zero n (shift + 1) s

print_loop-put_bits :
    (n fuel x shift : ℕ) (s : Stream)
    → x < 2 ^ n
    → n ≤ fuel
    → print_loop fuel x shift s ≡ ok (put_bits n shift x s)
unfolding print_loop
print_loop-put_bits zero zero x shift s h g = let none_left : x ≡ 0 = omega arith in rw none_left
print_loop-put_bits zero (suc fuel) x shift s h g =
    let none_left : x ≡ 0 = omega arith in rw none_left
print_loop-put_bits (suc n) zero x shift s h g = elim g [ ]
print_loop-put_bits (suc n) (suc fuel) x shift s h g =
    let half : x / 2 < 2 ^ n = omega (arith, pow-succ' 2 n) in
    elim (Bool-cases (x == 0)) [
      | inl e ↦
          let none_left : x ≡ 0 = ground arith in rw (none_left, put_bits_zero (suc n) shift s)
      | inr e ↦ elim (Bool-cases (x % 2 == 1)) [
        | inl o ↦ rw (e, o) (print_loop-put_bits n fuel (x / 2) (shift + 1) _ half (omega arith))
        | inr o ↦ rw (e, o) (print_loop-put_bits n fuel (x / 2) (shift + 1) s half (omega arith))
      ]
    ]

put_all : List FsError → ℕ → Stream → Stream
put_all [] x s = s
put_all (e ∷ es) x s = put_all es (x / 2) (if x % 2 == 1 then put (some e) s else s)

put_all-flagged :
    (es : List FsError) (x : ℕ) (out : List FsError)
    → put_all es x (record { out = out; good = true })
      ≡ record { out = out ++ flagged es x; good = true }
unfolding put_all
put_all-flagged [] x out = rw append-nil
put_all-flagged (e ∷ es) x out = elim (Bool-cases (x % 2 == 1)) [
  | inl o ↦ rw (o, put_all-flagged es (x / 2) (out ++ e ∷ []), append_assoc)
  | inr o ↦ rw o (put_all-flagged es (x / 2) out)
]

abbrev filter : (FsError → Bool) → List FsError → List FsError
filter p [] = []
filter p (e ∷ es) = let rest = filter p es in if p e then e ∷ rest else rest

flagged-is_set : (x : ℕ) → flagged all_errors x ≡ filter (is_set x) all_errors
flagged-is_set x = refl

put_bits-put_all : (x : ℕ) (s : Stream) → put_bits 9 0 x s ≡ put_all all_errors x s
unfolding put_all
put_bits-put_all x s = refl

set_bit_pos : (k x : ℕ) → 0 < set_bit k x
unfolding set_bit
set_bit_pos zero x = omega arith
set_bit_pos (suc k) x = omega (arith, set_bit_pos k (x / 2))

abbrev has_bit : FsError → Bool
has_bit e = elim (fs_bit e) [ none ↦ false | some k ↦ true ]

-- Some error other than `kCheckNotRun` was set.
abbrev any_flag : List FsError → Bool
any_flag [] = false
any_flag (e ∷ es) = has_bit e || any_flag es

set_fs_errors_pos : (es : List FsError) (x : ℕ) → 0 < x → 0 < set_fs_errors x es
unfolding set_fs_error
set_fs_errors_pos [] x h = h
set_fs_errors_pos (e ∷ es) x h = elim (Option-cases (fs_bit e)) [
  | inl p ↦ set_fs_errors_pos es (set_fs_error x e) (rw (set_fs_error, p) h)
  | inr (k, p) ↦ set_fs_errors_pos es (set_fs_error x e) (rw (set_fs_error, p) (set_bit_pos k x))
]

set_fs_errors_zero : (es : List FsError) → (set_fs_errors 0 es == 0) ≡ not (any_flag es)
unfolding set_fs_error
set_fs_errors_zero [] = refl
set_fs_errors_zero (e ∷ es) = elim (Option-cases (fs_bit e)) [
  | inl p ↦
      let kept : set_fs_error 0 e ≡ 0 = rw (set_fs_error, p) in
      rw (has_bit, p, kept) (set_fs_errors_zero es)
  | inr (k, p) ↦
      let more : 0 < set_fs_errors (set_fs_error 0 e) es =
        set_fs_errors_pos es (set_fs_error 0 e) (rw (set_fs_error, p) (set_bit_pos k 0)) in
      rw (has_bit, p) (ground (arith, more))
]

is_set_zero : (e : FsError) → is_set 0 e ≡ false
is_set_zero fs_clean = refl
is_set_zero _ = refl

or_false : (a b : Bool) → b ≡ false → (a || b) ≡ a
or_false true b h = refl
or_false false b h = h

is_set-was_set : (es : List FsError) (e : FsError) → is_set (set_fs_errors 0 es) e ≡ was_set e es
is_set-was_set es e =
    is_set-set_fs_errors es 0 e ∙ or_false (was_set e es) (is_set 0 e) (is_set_zero e)

filter_ext :
    (p q : FsError → Bool) (es : List FsError)
    → ((e : FsError) → p e ≡ q e)
    → filter p es ≡ filter q es
filter_ext p q [] h = refl
filter_ext p q (e ∷ es) h = rw (h e, filter_ext p q es h)

print_errors_flags :
    (x : ℕ)
    → x < 2 ^ 9
    → (x == 0) ≡ false
    → print_errors x (record { out = []; good = true })
      ≡ ok (record { out = filter (is_set x) all_errors; good = true })
unfolding print_errors
print_errors_flags x h e =
    let start : Stream = record { out = []; good = true } in
    rw e (
      print_loop-put_bits 9 32 x 0 start h (omega arith)
      ∙ ap ok (put_bits-put_all x start ∙ put_all-flagged all_errors x []))

print_errors_none :
    (x : ℕ)
    → (x == 0) ≡ true
    → print_errors x (record { out = []; good = true })
      ≡ ok (record { out = fs_check_not_run ∷ []; good = true })
unfolding print_errors
print_errors_none x e = rw e

-- What a stream without errors shows of the errors that were set: each of them once, in the order
-- of their bits, or that the check did not run.
abbrev shown : List FsError → List FsError
shown es = if any_flag es then filter (λ e. was_set e es) all_errors else fs_check_not_run ∷ []

-- `SetError` for the errors of a list, in any order and as often as it may be, and then
-- `PrintErrors` on a good stream prints just those errors, each once, in the order of their bits,
-- or that the check did not run if there are none; the loop ends, and the stream stays good.
pub print_errors-set_fs_errors :
    (es : List FsError)
    → print_errors (set_fs_errors 0 es) (record { out = []; good = true })
      ≡ ok (record { out = shown es; good = true })
print_errors-set_fs_errors es = elim (Bool-cases (any_flag es)) [
  | inl some_set ↦
      print_errors_flags (set_fs_errors 0 es) (set_fs_errors_small es 0 (omega arith))
        (set_fs_errors_zero es ∙ ap not some_set)
      ∙ ap (λ l. ok (record { out = l; good = true }))
          (filter_ext (is_set (set_fs_errors 0 es)) (λ e. was_set e es) all_errors
              (is_set-was_set es)
            ∙ rw (shown, some_set))
  | inr none_set ↦
      print_errors_none (set_fs_errors 0 es) (set_fs_errors_zero es ∙ ap not none_set)
      ∙ ap (λ l. ok (record { out = l; good = true })) (rw (shown, none_set))
]
