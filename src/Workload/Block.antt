-- ===== src/Workload/Block.antt =====
-- The bytes of `kTestDataBlock` of src/wrapper/workload.cpp.
use panda_scratchpad.Base.{
  ℕ, zero, suc, ◌+◌, ◌-◌, ◌*◌, ◌%◌, ◌≤◌, ◌<◌, ◌≡◌, refl, ◌∙◌, none, some, [], ◌∷◌, ◌++◌, arith,
  Bool-cases, ltb, inl, inr, append_assoc, length-append, length, get_elem?, take, drop,
}
use panda_scratchpad.Base.Words.{Bytes}
use panda_scratchpad.Workload.{repeat, letters, test_data_block}

-- The byte that belongs at a place of the file.
unfoldable pub letter : ℕ → ℕ
letter p = elim (get_elem? letters (p % 32)) [ none ↦ 0 | some b ↦ b ]

length_letters : length letters ≡ 32
unfolding letters
length_letters = refl

pub get_elem?_inside : (s : Bytes) (i : ℕ) → i < length s → (b : ℕ) × (get_elem? s i ≡ some b)
get_elem?_inside [] i h = elim h [ ]
get_elem?_inside (b ∷ s) zero h = (b, refl)
get_elem?_inside (b ∷ s) (suc i) h = get_elem?_inside s i (omega arith)

get_elem?-letters : (i : ℕ) → i < 32 → get_elem? letters i ≡ some (letter i)
unfolding letter
get_elem?-letters i h =
    let (b, e) = get_elem?_inside letters i (omega (arith, length_letters)) in
    let small : i % 32 ≡ i = omega arith in rw (letter, small, e)

pub get_elem?-append_front :
    (s t : Bytes) (i : ℕ) → i < length s → get_elem? (s ++ t) i ≡ get_elem? s i
get_elem?-append_front [] t i h = elim h [ ]
get_elem?-append_front (b ∷ s) t zero h = refl
get_elem?-append_front (b ∷ s) t (suc i) h = get_elem?-append_front s t i (omega arith)

pub get_elem?-append_back :
    (s t : Bytes) (i : ℕ) → get_elem? (s ++ t) (length s + i) ≡ get_elem? t i
get_elem?-append_back [] t i = let e : 0 + i ≡ i = omega arith in rw e
get_elem?-append_back (b ∷ s) t i =
    let e : suc (length s) + i ≡ suc (length s + i) = omega arith in
    rw e (get_elem?-append_back s t i)

get_elem?-drop : (m i : ℕ) (s : Bytes) → get_elem? (drop m s) i ≡ get_elem? s (m + i)
get_elem?-drop zero i s = let e : 0 + i ≡ i = omega arith in rw e
get_elem?-drop (suc m) i [] = refl
get_elem?-drop (suc m) i (b ∷ s) =
    let e : suc m + i ≡ suc (m + i) = omega arith in rw e (get_elem?-drop m i s)

get_elem?-take : (n i : ℕ) (s : Bytes) → i < n → get_elem? (take n s) i ≡ get_elem? s i
get_elem?-take zero i s h = elim h [ ]
get_elem?-take (suc n) i [] h = refl
get_elem?-take (suc n) zero (b ∷ s) h = refl
get_elem?-take (suc n) (suc i) (b ∷ s) h = get_elem?-take n i s (omega arith)

letter_period : (p : ℕ) → letter (32 + p) ≡ letter p
unfolding letter
letter_period p = let e : (32 + p) % 32 ≡ p % 32 = omega arith in rw (letter, e)

letter_later :
    (s : Bytes) (j i : ℕ)
    → i ≡ length letters + j
    → get_elem? s j ≡ some (letter j)
    → get_elem? (letters ++ s) i ≡ some (letter i)
letter_later s j i e h =
    let period : letter (length letters + j) ≡ letter j = rw length_letters (letter_period j) in
    rw (e, period) (get_elem?-append_back letters s j ∙ h)

get_elem?-repeat :
    (k i : ℕ) (t : Bytes) → i < k * 32 → get_elem? (repeat k letters ++ t) i ≡ some (letter i)
unfolding repeat
get_elem?-repeat zero i t h = absurd (omega arith)
get_elem?-repeat (suc k) i t h = elim (Bool-cases (ltb i 32)) [
  | inl l ↦
      let small : i < 32 = ground arith in
      rw (append_assoc letters (repeat k letters) t) (
        get_elem?-append_front letters (repeat k letters ++ t) i (omega (arith, length_letters))
        ∙ get_elem?-letters i small)
  | inr l ↦
      let e : i ≡ length letters + (i - 32) = ground (arith, length_letters) in
      rw (append_assoc letters (repeat k letters) t) (
        letter_later (repeat k letters ++ t) (i - 32) i e
          (get_elem?-repeat k (i - 32) t (ground arith)))
]

-- A part of the block, byte for byte.
pub get_elem?-block :
    (start n i : ℕ)
    → start + n ≤ 4096
    → i < n
    → get_elem? (take n (drop start test_data_block)) i ≡ some (letter (start + i))
unfolding test_data_block
get_elem?-block start n i h k =
    get_elem?-take n i (drop start test_data_block) k
    ∙ (get_elem?-drop start i test_data_block
        ∙ get_elem?-repeat 128 (start + i) (0 ∷ []) (omega arith))

length-repeat : (k : ℕ) → length (repeat k letters) ≡ k * 32
unfolding repeat
length-repeat zero = omega arith
length-repeat (suc k) =
    length-append letters (repeat k letters) ∙ omega (arith, length_letters, length-repeat k)

pub length_test_data_block : length test_data_block ≡ 4097
unfolding test_data_block
length_test_data_block =
    length-append (repeat 128 letters) (0 ∷ []) ∙ omega (arith, length-repeat 128)

pub letter-eq : (p q : ℕ) → p % 32 ≡ q % 32 → letter p ≡ letter q
unfolding letter
letter-eq p q e = rw (letter, e)
