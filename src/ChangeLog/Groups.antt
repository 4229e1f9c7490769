-- ===== src/ChangeLog/Groups.antt =====
-- How `Tester::GetChangeData` (src/utils/Tester.cpp) groups the DiskMods: by checkpoints.
use panda_scratchpad.Base.{
  ◌≡◌, refl, sym, ap, ◌∙◌, Bool, true, false, List, [], ◌∷◌, ◌++◌, append-nil, append_assoc, ◌==◌,
  if◌then◌else◌, Bool-cases, inl, inr,
}
use mathlib.Core.List.{foldl}
use panda_scratchpad.DiskMod.{DiskMod, checkpoint_mod, type_code}
use panda_scratchpad.ChangeLog.{push_last, add_mod}

abbrev pub is_checkpoint : DiskMod → Bool
is_checkpoint m = type_code m.mod_type == type_code checkpoint_mod

abbrev Groups : Type 0
Groups = List (List DiskMod)

abbrev pub append_first : List DiskMod → Groups → Groups
append_first g [] = g ∷ []
append_first g (h ∷ hs) = (g ++ h) ∷ hs

-- The stretches between checkpoints, the empty ones included.
unfoldable pub segments : List DiskMod → Groups
segments [] = [] ∷ []
segments (m ∷ ms) =
    if is_checkpoint m then [] ∷ segments ms else append_first (m ∷ []) (segments ms)

abbrev pub drop_leading : Groups → Groups
drop_leading ([] ∷ gs) = gs
drop_leading gs = gs

-- The groups that the tester keeps: the stretches, but for an empty one in front.
unfoldable pub checkpoint_groups : List DiskMod → Groups
unfolding segments
checkpoint_groups ms = drop_leading (segments ms)

push_last-append :
    (gs : Groups) (g : List DiskMod) (m : DiskMod)
    → push_last (gs ++ g ∷ []) m ≡ gs ++ (g ++ m ∷ []) ∷ []
unfolding push_last
push_last-append [] g m = refl
push_last-append (h ∷ []) g m = refl
push_last-append (h ∷ k ∷ gs) g m = ap (λ r. h ∷ r) (push_last-append (k ∷ gs) g m)

add_mod_last :
    (gs : Groups) (g : List DiskMod) (m : DiskMod)
    → is_checkpoint m ≡ false
    → add_mod (gs ++ g ∷ []) m ≡ gs ++ (g ++ m ∷ []) ∷ []
unfolding add_mod
add_mod_last [] g m h = rw h
add_mod_last (k ∷ gs) g m h = rw h (push_last-append (k ∷ gs) g m)

append_first-append_first :
    (g h : List DiskMod) (gs : Groups)
    → append_first g (append_first h gs) ≡ append_first (g ++ h) gs
append_first-append_first g h [] = refl
append_first-append_first g h (k ∷ gs) = ap (λ r. r ∷ gs) (sym (append_assoc g h k))

drop_leading_cons :
    (m : DiskMod) (gs : Groups) → append_first (m ∷ []) gs ≡ drop_leading (append_first (m ∷ []) gs)
drop_leading_cons m [] = refl
drop_leading_cons m (g ∷ gs) = refl

add_mod_checkpoint :
    (gs : Groups) (m : DiskMod) → is_checkpoint m ≡ true → add_mod gs m ≡ gs ++ [] ∷ []
unfolding add_mod
add_mod_checkpoint gs m h = rw h

append_first-nil : (ms : List DiskMod) → append_first [] (segments ms) ≡ segments ms
unfolding segments
append_first-nil [] = refl
append_first-nil (m ∷ ms) = elim (Bool-cases (is_checkpoint m)) [
  | inl e ↦ rw e
  | inr e ↦ rw e (append_first-append_first [] (m ∷ []) (segments ms))
]

foldl-add_mod :
    (ms : List DiskMod) (gs : Groups) (g : List DiskMod)
    → foldl add_mod (gs ++ g ∷ []) ms ≡ gs ++ append_first g (segments ms)
unfolding segments
foldl-add_mod [] gs g = rw append-nil
foldl-add_mod (m ∷ ms) gs g = elim (Bool-cases (is_checkpoint m)) [
  | inl e ↦
      rw (e, add_mod_checkpoint (gs ++ g ∷ []) m e, foldl-add_mod ms (gs ++ g ∷ []) [])
        (rw (append_first-nil ms, append-nil) (append_assoc gs (g ∷ []) (segments ms)))
  | inr e ↦
      rw (e, add_mod_last gs g m e, foldl-add_mod ms gs (g ++ m ∷ []))
        (ap (λ r. gs ++ r) (sym (append_first-append_first g (m ∷ []) (segments ms))))
]

-- Adding DiskMods one by one to an empty list of groups gives the groups of the whole.
pub foldl-add_mod_nil : (ms : List DiskMod) → foldl add_mod [] ms ≡ checkpoint_groups ms
unfolding checkpoint_groups add_mod
foldl-add_mod_nil [] = refl
foldl-add_mod_nil (m ∷ ms) = elim (Bool-cases (is_checkpoint m)) [
  | inl e ↦ rw e (foldl-add_mod ms [] [] ∙ append_first-nil ms)
  | inr e ↦
      rw e (unfold push_last in (foldl-add_mod ms [] (m ∷ []) ∙ drop_leading_cons m (segments ms)))
]
