-- ===== src/Results/Bits.antt =====
-- The word of flags of `FileSystemTestResult` (src/results/FileSystemTestResult.cpp), bit by bit.
use panda_scratchpad.Base.{
  ℕ, zero, suc, ◌+◌, ◌*◌, ◌/◌, ◌%◌, ◌^◌, ◌<◌, ◌≡◌, refl, Bool, true, false, ◌||◌, none, some, List,
  [], ◌∷◌, ◌==◌, arith, ◌∙◌, Option-cases, inl, inr,
}
use native.Mathlib.Nat.{pow-succ'}
use panda_scratchpad.Results.{FsError, fs_bit, set_bit, set_fs_error}

abbrev pub bit : ℕ → ℕ → Bool
bit zero x = x % 2 == 1
bit (suc k) x = bit k (x / 2)

set_bit-bit : (k j x : ℕ) → bit j (set_bit k x) ≡ ((j == k) || bit j x)
unfolding set_bit
set_bit-bit zero zero x = ground arith
set_bit-bit zero (suc j) x =
    let half : (x / 2 * 2 + 1) / 2 ≡ x / 2 = omega arith in
    let differs : (suc j == 0) ≡ false = ground arith in rw (half, differs)
set_bit-bit (suc k) zero x = ground arith
set_bit-bit (suc k) (suc j) x =
    let half : (set_bit k (x / 2) * 2 + x % 2) / 2 ≡ set_bit k (x / 2) = omega arith in
    let same : (suc j == suc k) ≡ (j == k) = ground arith in
    rw (half, same) (set_bit-bit k j (x / 2))

set_bit_small : (k x n : ℕ) → k < n → x < 2 ^ n → set_bit k x < 2 ^ n
unfolding set_bit
set_bit_small zero x zero h g = elim h [ ]
set_bit_small zero x (suc n) h g = omega (arith, pow-succ' 2 n)
set_bit_small (suc k) x zero h g = elim h [ ]
set_bit_small (suc k) x (suc n) h g =
    omega
      (arith, pow-succ' 2 n, set_bit_small k (x / 2) n (omega arith) (omega (arith, pow-succ' 2 n)))

-- An error is set if its bit is; `kCheckNotRun` has none.
abbrev pub is_set : ℕ → FsError → Bool
is_set x e = elim (fs_bit e) [ none ↦ false | some k ↦ bit k x ]

abbrev eq_fs : FsError → FsError → Bool
eq_fs a b = elim (fs_bit a) [
  | none ↦ false
  | some j ↦ elim (fs_bit b) [ none ↦ false | some k ↦ j == k ]
]

-- `e` is one of the errors that were set.
abbrev pub was_set : FsError → List FsError → Bool
was_set e [] = false
was_set e (d ∷ ds) = eq_fs e d || was_set e ds

-- `SetError` for one error after the other.
abbrev pub set_fs_errors : ℕ → List FsError → ℕ
set_fs_errors x [] = x
set_fs_errors x (e ∷ es) = set_fs_errors (set_fs_error x e) es

is_set-set_fs_error :
    (x : ℕ) (d e : FsError) → is_set (set_fs_error x d) e ≡ (eq_fs e d || is_set x e)
unfolding set_fs_error
is_set-set_fs_error x d e = elim (Option-cases (fs_bit e)) [
  | inl p ↦ rw (is_set, eq_fs, p)
  | inr (j, p) ↦ elim (Option-cases (fs_bit d)) [
    | inl q ↦ rw (is_set, eq_fs, set_fs_error, p, q)
    | inr (k, q) ↦ rw (is_set, eq_fs, set_fs_error, p, q) (set_bit-bit k j x)
  ]
]

or_swap : (a b c : Bool) → (a || (b || c)) ≡ ((b || a) || c)
or_swap true true c = refl
or_swap true false c = refl
or_swap false true c = refl
or_swap false false c = refl

pub is_set-set_fs_errors :
    (es : List FsError) (x : ℕ) (e : FsError)
    → is_set (set_fs_errors x es) e ≡ (was_set e es || is_set x e)
is_set-set_fs_errors [] x e = refl
is_set-set_fs_errors (d ∷ ds) x e =
    is_set-set_fs_errors ds (set_fs_error x d) e
    ∙ rw (is_set-set_fs_error x d e) (or_swap (was_set e ds) (eq_fs e d) (is_set x e))

fs_bit_small : (e : FsError) (k : ℕ) → fs_bit e ≡ some k → k < 9
fs_bit_small e k h = ground arith

set_fs_error_small : (e : FsError) (x : ℕ) → x < 2 ^ 9 → set_fs_error x e < 2 ^ 9
unfolding set_fs_error
set_fs_error_small e x h = elim (Option-cases (fs_bit e)) [
  | inl p ↦ rw (set_fs_error, p) h
  | inr (k, p) ↦ rw (set_fs_error, p) (set_bit_small k x 9 (fs_bit_small e k p) h)
]

pub set_fs_errors_small : (es : List FsError) (x : ℕ) → x < 2 ^ 9 → set_fs_errors x es < 2 ^ 9
set_fs_errors_small [] x h = h
set_fs_errors_small (e ∷ es) x h =
    set_fs_errors_small es (set_fs_error x e) (set_fs_error_small e x h)
