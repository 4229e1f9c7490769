-- ===== src/Base/Maps.antt =====
-- `std::map` with texts as keys: a list of entries in the order of their keys.
use Prim.Native.Nat.{suc, ◌≤◌}
use mathlib.Core.Path.{◌≡◌, refl}
use mathlib.Core.Logic.{◌≢◌, inl, inr}
use mathlib.Core.Option.{Option, none, some}
use mathlib.Core.List.{List, [], ◌∷◌}
use native.Mathlib.Omega.{arith}
use panda_scratchpad.Base.Tests.{if◌then◌else◌, Option-cases, Bool-cases}
use panda_scratchpad.Base.Lists.{length}
use panda_scratchpad.Base.Words.{Bytes}
use panda_scratchpad.Base.Texts.{text_eq, text_lt, text_eq_refl, text_eq_iff}

abbrev pub TextMap : Type 0 → Type 0
TextMap V = List (Bytes × V)

module _ {V : Type 0} where
  -- `find`, and `[]` of a key that is there.
  unfoldable pub lookup : Bytes → TextMap V → Option V
  lookup k [] = none
  lookup k ((j, v) ∷ m) = if text_eq j k then some v else lookup k m

  -- The value of a key that is there.
  set : Bytes → V → TextMap V → TextMap V
  set k v [] = []
  set k v ((j, w) ∷ m) = let later = (j, w) ∷ set k v m in if text_eq j k then (k, v) ∷ m else later

  -- A key that is not there, at its place.
  place : Bytes → V → TextMap V → TextMap V
  place k v [] = (k, v) ∷ []
  place k v ((j, w) ∷ m) =
      let later = (j, w) ∷ place k v m in if text_lt k j then (k, v) ∷ (j, w) ∷ m else later

  -- `m[k] = v`
  unfoldable pub insert : Bytes → V → TextMap V → TextMap V
  unfolding lookup set place
  insert k v m = elim (lookup k m) [ some _ ↦ set k v m | none ↦ place k v m ]

  unfoldable erase : Bytes → TextMap V → TextMap V
  erase k [] = []
  erase k ((j, v) ∷ m) = let rest = (j, v) ∷ erase k m in if text_eq j k then m else rest

  -- No key occurs twice.
  abbrev pub IsMap : TextMap V → Type 0
  IsMap [] = Unit {0}
  IsMap ((k, v) ∷ m) = (lookup k m ≡ none) × IsMap m

  lookup-set :
      (k j : Bytes) (v : V) (m : TextMap V)
      → lookup k m ≢ none
      → lookup j (set k v m) ≡ (if text_eq k j then some v else lookup j m)
  unfolding lookup set
  lookup-set k j v [] h = absurd (h refl)
  lookup-set k j v ((i, w) ∷ m) h =
      ground (arith, text_eq_iff k j, text_eq_iff i k, text_eq_iff i j, lookup-set k j v m)

  lookup-place :
      (k j : Bytes) (v : V) (m : TextMap V)
      → lookup k m ≡ none
      → lookup j (place k v m) ≡ (if text_eq k j then some v else lookup j m)
  unfolding lookup place
  lookup-place k j v [] h = refl
  lookup-place k j v ((i, w) ∷ m) h =
      ground (arith, text_eq_iff k j, text_eq_iff i k, text_eq_iff i j, lookup-place k j v m)

  pub lookup-insert :
      (k j : Bytes) (v : V) (m : TextMap V)
      → lookup j (insert k v m) ≡ (if text_eq k j then some v else lookup j m)
  unfolding insert
  lookup-insert k j v m = elim (Option-cases (lookup k m)) [
    | inl e ↦ rw (e, insert) (lookup-place k j v m e)
    | inr (w, e) ↦ rw (e, insert) (lookup-set k j v m (λ n. cc))
  ]

  set-IsMap : (k : Bytes) (v : V) (m : TextMap V) → lookup k m ≢ none → IsMap m → IsMap (set k v m)
  unfolding lookup set
  set-IsMap k v [] p h = tt
  set-IsMap k v ((j, w) ∷ m) p h =
      ground (arith, text_eq_iff j k, text_eq_iff k j, lookup-set k j v m, set-IsMap k v m)

  place-IsMap :
      (k : Bytes) (v : V) (m : TextMap V) → lookup k m ≡ none → IsMap m → IsMap (place k v m)
  unfolding lookup place
  place-IsMap k v [] p h = (refl, tt)
  place-IsMap k v ((j, w) ∷ m) p h =
      ground (arith, text_eq_iff j k, text_eq_iff k j, lookup-place k j v m, place-IsMap k v m)

  pub insert-IsMap : (k : Bytes) (v : V) (m : TextMap V) → IsMap m → IsMap (insert k v m)
  unfolding insert
  insert-IsMap k v m h = elim (Option-cases (lookup k m)) [
    | inl e ↦ rw (e, insert) (place-IsMap k v m e h)
    | inr (w, e) ↦ rw (e, insert) (set-IsMap k v m (λ n. cc) h)
  ]

  lookup-erase :
      (k j : Bytes) (m : TextMap V)
      → IsMap m
      → lookup j (erase k m) ≡ (if text_eq k j then none else lookup j m)
  unfolding lookup erase
  lookup-erase k j [] h = ground arith
  lookup-erase k j ((i, w) ∷ m) h =
      ground (arith, text_eq_iff k j, text_eq_iff i k, text_eq_iff i j, lookup-erase k j m)

  erase-IsMap : (k : Bytes) (m : TextMap V) → IsMap m → IsMap (erase k m)
  unfolding lookup erase
  erase-IsMap k [] h = tt
  erase-IsMap k ((j, w) ∷ m) h =
      ground (arith, text_eq_iff k j, lookup-erase k j m, erase-IsMap k m)

  length-erase :
      (k : Bytes) (m : TextMap V) → lookup k m ≢ none → suc (length (erase k m)) ≡ length m
  unfolding lookup erase
  length-erase k [] h = absurd (h refl)
  length-erase k ((j, w) ∷ m) h = ground (arith, length-erase k m)

  -- Every key of one map is one of the other.
  abbrev pub KeysIn : TextMap V → TextMap V → Type 0
  KeysIn [] n = Unit {0}
  KeysIn ((k, v) ∷ m) n = (lookup k n ≢ none) × KeysIn m n

  KeysIn-erase :
      (k : Bytes) (m n : TextMap V)
      → IsMap n
      → lookup k m ≡ none
      → KeysIn m n
      → KeysIn m (erase k n)
  unfolding lookup
  KeysIn-erase k [] n i f h = tt
  KeysIn-erase k ((j, v) ∷ m) n i f h =
      ground (arith, text_eq_iff k j, text_eq_iff j k, lookup-erase k j n i, KeysIn-erase k m n i)

  pub length-le : (m n : TextMap V) → IsMap m → IsMap n → KeysIn m n → length m ≤ length n
  length-le [] n i j h = omega arith
  length-le ((k, v) ∷ m) n i j h = omega (
    arith,
    length-le m (erase k n) i.1 (erase-IsMap k n j) (KeysIn-erase k m n j i.0 h.1),
    length-erase k n h.0,
  )

  lookup_absent : (k : Bytes) (m n : TextMap V) → KeysIn m n → lookup k n ≡ none → lookup k m ≡ none
  unfolding lookup
  lookup_absent k [] n h f = refl
  lookup_absent k ((j, v) ∷ m) n h f = ground (arith, text_eq_iff j k, lookup_absent k m n)

  pub lookup-KeysIn :
      (m n : TextMap V) → ((k : Bytes) → lookup k m ≢ none → lookup k n ≢ none) → KeysIn m n
  unfolding lookup
  lookup-KeysIn [] n h = tt
  lookup-KeysIn ((k, v) ∷ m) n h =
      (h k (λ e. ground (arith, text_eq_refl k)), lookup-KeysIn m n (λ j f. h j (later j f)))
    where
      later : (j : Bytes) → lookup j m ≢ none → lookup j ((k, v) ∷ m) ≢ none
      later j f e = elim (Bool-cases (text_eq k j)) [ inl q ↦ ground arith | inr q ↦ f (rw q at e) ]

  -- Of two maps of one size, each has the keys of the other if one has.
  pub lookup-eq_none :
      (k : Bytes) (m n : TextMap V)
      → IsMap m
      → IsMap n
      → length m ≡ length n
      → KeysIn m n
      → lookup k m ≡ none
      → lookup k n ≡ none
  lookup-eq_none k m n i j e h f = elim (Option-cases (lookup k n)) [
    | inl g ↦ g
    | inr (w, g) ↦
        let there : lookup k n ≢ none = λ (x : lookup k n ≡ none). cc in
        absurd (
          omega (
            arith,
            length-le m (erase k n) i (erase-IsMap k n j) (KeysIn-erase k m n j f h),
            length-erase k n there,
          ))
  ]
