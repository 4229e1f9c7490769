-- ===== src/Main/Names.antt =====
-- The name of a test case in src/main.cpp.
use panda_scratchpad.Base.{
  ◌-◌, ◌≡◌, refl, true, false, [], ◌∷◌, ◌++◌, ◌==◌, ltb, arith, length, length-append, take_append,
}
use panda_scratchpad.Base.Words.{Bytes}
use panda_scratchpad.Base.Texts.{Without, Without-append}
use panda_scratchpad.Main.{has_slash, behind_slash, test_case_name}

has_slash-Without : (s : Bytes) → Without 47 s → has_slash s ≡ false
unfolding has_slash
has_slash-Without [] h = refl
has_slash-Without (b ∷ s) h =
    let e : (b == 47) ≡ false = ground arith in rw (e, has_slash-Without s h.1)

has_slash-append : (s t : Bytes) → has_slash (s ++ 47 ∷ t) ≡ true
unfolding has_slash
has_slash-append [] t = refl
has_slash-append (b ∷ s) t = rw (has_slash-append s t) (ground arith)

behind_slash-append : (s t : Bytes) → Without 47 t → behind_slash (s ++ 47 ∷ t) ≡ t
unfolding behind_slash
behind_slash-append [] t h = rw (has_slash-Without t h)
behind_slash-append (b ∷ s) t h = rw (has_slash-append s t, behind_slash-append s t h)

-- A path whose last part is a name and three more characters, such as `.so`: the test case has that
-- name.
pub test_case_name-append :
    (folder name ext : Bytes)
    → Without 47 name
    → Without 47 ext
    → length ext ≡ 3
    → test_case_name (folder ++ 47 ∷ (name ++ ext)) ≡ name
unfolding test_case_name
test_case_name-append folder name ext h k l =
    let len = length-append name ext in
    let long : ltb (length (name ++ ext)) 3 ≡ false = ground arith in
    let cut : length (name ++ ext) - 3 ≡ length name = omega arith in
    rw (
      behind_slash-append folder (name ++ ext) (Without-append 47 name ext h k),
      long,
      cut,
      take_append,
    )
