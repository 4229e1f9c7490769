-- ===== src/Base/Texts.antt =====
-- The operations of `std::string` that the program uses, on lists of bytes.
use Prim.Native.Nat.{ℕ, zero, suc, ◌+◌, ◌-◌, ◌*◌, ◌/◌, ◌%◌, ◌≤◌, ◌<◌}
use Prim.Native.Char.{code}
use Prim.Native.String.{String}
use mathlib.Core.Path.{◌≡◌, refl, ap, ◌∙◌}
use mathlib.Core.Logic.{◌≢◌, ◌↔◌, inl, inr}
use mathlib.Core.Bool.{Bool, true, false, ◌&&◌}
use mathlib.Core.Option.{Option, none, some}
use mathlib.Core.List.{[], ◌∷◌, ◌++◌}
use native.Mathlib.Omega.{arith}
use panda_scratchpad.Base.Tests.{◌==◌, ltb, if◌then◌else◌, Bool-cases}
use panda_scratchpad.Base.Lists.{length, take, drop}
use panda_scratchpad.Base.Words.{Bytes}

-- The bytes of a literal, which is ASCII here.
abbrev pub codes : String → Bytes
codes String.[] = []
codes (String.◌∷◌ c s) = code c ∷ codes s

-- `std::string(s.c_str())`: up to the first NUL.
unfoldable pub c_str : Bytes → Bytes
c_str [] = []
c_str (b ∷ s) = let rest = c_str s in if b == 0 then [] else b ∷ rest

-- `a.compare(b) == 0`
unfoldable pub text_eq : Bytes → Bytes → Bool
text_eq [] [] = true
text_eq [] (b ∷ t) = false
text_eq (a ∷ s) [] = false
text_eq (a ∷ s) (b ∷ t) = (a == b) && text_eq s t

abbrev starts_with : Bytes → Bytes → Bool
starts_with [] s = true
starts_with (a ∷ t) [] = false
starts_with (a ∷ t) (b ∷ s) = (a == b) && starts_with t s

-- `s.find(t)`: the first place of `t` in `s`, from `i` on.
abbrev find_from : Bytes → ℕ → Bytes → Option ℕ
find_from t i [] = if starts_with t [] then some i else none
find_from t i (b ∷ s) =
    let later = find_from t (i + 1) s in if starts_with t (b ∷ s) then some i else later

unfoldable pub find : Bytes → Bytes → Option ℕ
find s t = find_from t 0 s

-- `s.replace(at, n, t)`
abbrev pub replace : Bytes → ℕ → ℕ → Bytes → Bytes
replace s at n t = take at s ++ (t ++ drop (at + n) s)

pub text_eq_refl : (s : Bytes) → text_eq s s ≡ true
unfolding text_eq
text_eq_refl [] = refl
text_eq_refl (a ∷ s) = ground (arith, text_eq_refl s)

pub text_eq→eq : (s t : Bytes) → text_eq s t ≡ true → s ≡ t
unfolding text_eq
text_eq→eq [] [] h = refl
text_eq→eq [] (b ∷ t) h = cc
text_eq→eq (a ∷ s) [] h = cc
text_eq→eq (a ∷ s) (b ∷ t) h = ground (arith, text_eq→eq s t)

pub text_eq_iff : (s t : Bytes) → (text_eq s t ≡ true) ↔ (s ≡ t)
text_eq_iff s t = (text_eq→eq s t, λ e. rw e (text_eq_refl t))

-- `a < b` of `std::string`, the order of the keys in a `std::map`.
unfoldable pub text_lt : Bytes → Bytes → Bool
text_lt s [] = false
text_lt [] (b ∷ t) = true
text_lt (a ∷ s) (b ∷ t) = if a == b then text_lt s t else ltb a b

-- A NUL ends the text.
pub c_str_nul : (s t : Bytes) → c_str (s ++ 0 ∷ t) ≡ c_str s
unfolding c_str
c_str_nul [] t = refl
c_str_nul (b ∷ s) t = ground (arith, c_str_nul s t)

-- `std::to_string` of an unsigned number. The fuel is more than enough: each digit takes one.
digits : (fuel n : ℕ) → Bytes → Bytes
digits zero n out = out
digits (suc fuel) n out =
    let out' = (48 + n % 10) ∷ out in
    let more = digits fuel (n / 10) out' in if ltb n 10 then out' else more

unfoldable pub to_string : ℕ → Bytes
unfolding digits
to_string n = digits (suc n) n []

-- The number that digits stand for, behind those that are read.
read_digits : ℕ → Bytes → ℕ
read_digits acc [] = acc
read_digits acc (d ∷ ds) = read_digits (acc * 10 + (d - 48)) ds

pub of_string : Bytes → ℕ
unfolding read_digits
of_string s = read_digits 0 s

read_digits-digits :
    (fuel n : ℕ) (out : Bytes) → n < fuel → read_digits 0 (digits fuel n out) ≡ read_digits n out
unfolding digits read_digits
read_digits-digits zero n out h = elim h [ ]
read_digits-digits (suc fuel) n out h = elim (Bool-cases (ltb n 10)) [
  | inl q ↦ rw q (ap (λ a. read_digits a out) (ground arith))
  | inr q ↦ rw q (
      read_digits-digits fuel (n / 10) ((48 + n % 10) ∷ out) (ground arith)
      ∙ ap (λ a. read_digits a out) (omega arith))
]

pub of_string-to_string : (n : ℕ) → of_string (to_string n) ≡ n
unfolding of_string to_string
of_string-to_string n = read_digits-digits (suc n) n [] (omega arith)

starts_with-append : (t u : Bytes) → starts_with t (t ++ u) ≡ true
starts_with-append [] u = refl
starts_with-append (b ∷ t) u = ground (arith, starts_with-append t u)

find_from_front : (t : Bytes) (i : ℕ) (s : Bytes) → starts_with t s ≡ true → find_from t i s ≢ none
find_from_front t i [] h = rw h (λ e. cc)
find_from_front t i (b ∷ s) h = rw h (λ e. cc)

find_from-append : (t : Bytes) (i : ℕ) (s u : Bytes) → find_from t i (s ++ (t ++ u)) ≢ none
find_from-append t i [] u = find_from_front t i (t ++ u) (starts_with-append t u)
find_from-append t i (b ∷ s) u = elim (Bool-cases (starts_with t (b ∷ (s ++ (t ++ u))))) [
  | inl h ↦ rw h (λ e. cc)
  | inr h ↦ rw h (find_from-append t (i + 1) s u)
]

-- A text is found in each text that holds it.
pub find-append : (t s u : Bytes) → find (s ++ (t ++ u)) t ≢ none
unfolding find
find-append t s u = find_from-append t 0 s u

pub length-c_str : (s : Bytes) → length (c_str s) ≤ length s
unfolding c_str
length-c_str [] = omega arith
length-c_str (b ∷ s) = ground (arith, length-c_str s)

-- No byte of a text is `c`.
abbrev pub Without : ℕ → Bytes → Type 0
Without c [] = Unit {0}
Without c (b ∷ s) = (b ≢ c) × Without c s

pub Without-append : (c : ℕ) (s t : Bytes) → Without c s → Without c t → Without c (s ++ t)
Without-append c [] t h k = k
Without-append c (b ∷ s) t h k = (h.0, Without-append c s t h.1 k)

pub c_str-append : (s t : Bytes) → Without 0 s → c_str (s ++ t) ≡ s ++ c_str t
unfolding c_str
c_str-append [] t h = refl
c_str-append (b ∷ s) t h = ground (arith, h.0, c_str-append s t h.1)

digits-Without : (fuel n : ℕ) (out : Bytes) → Without 10 out → Without 10 (digits fuel n out)
unfolding digits
digits-Without zero n out h = h
digits-Without (suc fuel) n out h =
    let here : Without 10 ((48 + n % 10) ∷ out) = (λ e. absurd (omega arith), h) in
    elim (Bool-cases (ltb n 10)) [
      | inl q ↦ rw q here
      | inr q ↦ rw q (digits-Without fuel (n / 10) ((48 + n % 10) ∷ out) here)
    ]

-- A printed number has no newline.
pub to_string-Without : (n : ℕ) → Without 10 (to_string n)
unfolding to_string
to_string-Without n = digits-Without (suc n) n [] tt
