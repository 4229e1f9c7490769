-- ===== src/Tester/Checkpoints.antt =====
-- Which of the recorded DiskMods `check_disk_and_snapshot_contents` (src/utils/Tester.cpp) looks at.
use panda_scratchpad.Base.{
  ◌≡◌, refl, ap, ◌∙◌, Bool, true, false, ◌||◌, List, [], ◌∷◌, ◌++◌, Bool-cases, inl, inr,
}
use mathlib.Core.List.{foldl}
use panda_scratchpad.Base.Outcome.{ok}
use panda_scratchpad.DiskMod.{DiskMod}
use panda_scratchpad.ChangeLog.{add_mod}
use panda_scratchpad.ChangeLog.Groups.{
  is_checkpoint, segments, checkpoint_groups, append_first, drop_leading, foldl-add_mod_nil,
}
use panda_scratchpad.Tester.{last_group}

abbrev any_checkpoint : List DiskMod → Bool
any_checkpoint [] = false
any_checkpoint (m ∷ ms) = is_checkpoint m || any_checkpoint ms

segments_cons :
    (a : List DiskMod) → (g : List DiskMod) × (gs : List (List DiskMod)) × (segments a ≡ g ∷ gs)
unfolding segments
segments_cons [] = ([], [], refl)
segments_cons (m ∷ a) = elim (Bool-cases (is_checkpoint m)) [
  | inl e ↦ ([], segments a, rw e)
  | inr e ↦ let (g, gs, c) = segments_cons a in (m ∷ g, gs, rw (e, c))
]

append_first-append :
    (m : DiskMod) (a : List DiskMod) (ys : List (List DiskMod))
    → append_first (m ∷ []) (segments a ++ ys) ≡ append_first (m ∷ []) (segments a) ++ ys
append_first-append m a ys = let (g, gs, c) = segments_cons a in rw c

segments-append :
    (a xs : List DiskMod) (cp : DiskMod)
    → is_checkpoint cp ≡ true
    → segments (a ++ cp ∷ xs) ≡ segments a ++ segments xs
unfolding segments
segments-append [] xs cp h = rw h
segments-append (m ∷ a) xs cp h = elim (Bool-cases (is_checkpoint m)) [
  | inl e ↦ rw (e, segments-append a xs cp h)
  | inr e ↦ rw (e, segments-append a xs cp h) (append_first-append m a (segments xs))
]

segments_plain : (b : List DiskMod) → any_checkpoint b ≡ false → segments b ≡ b ∷ []
unfolding segments
segments_plain [] h = refl
segments_plain (m ∷ b) h = elim (Bool-cases (is_checkpoint m)) [
  | inl e ↦ let wrong : true ≡ false = rw e at h in absurd cc
  | inr e ↦ rw (e, segments_plain b (rw e at h))
]

last_group-append :
    (gs : List (List DiskMod)) (b c : List DiskMod) → last_group (gs ++ b ∷ c ∷ []) ≡ ok b
unfolding last_group
last_group-append [] b c = refl
last_group-append (g ∷ []) b c = refl
last_group-append (g ∷ h ∷ []) b c = last_group-append (h ∷ []) b c
last_group-append (g ∷ h ∷ k ∷ gs) b c = last_group-append (h ∷ k ∷ gs) b c

last_group-drop_leading :
    (a b c : List DiskMod) → last_group (drop_leading (segments a ++ b ∷ c ∷ [])) ≡ ok b
last_group-drop_leading a b c = let (g, gs, e) = segments_cons a in rw e (dropped g gs b c)
  where
    dropped :
        (g : List DiskMod) (gs : List (List DiskMod)) (b c : List DiskMod)
        → last_group (drop_leading (g ∷ gs ++ b ∷ c ∷ [])) ≡ ok b
    dropped [] gs b c = last_group-append gs b c
    dropped (m ∷ g) gs b c = last_group-append ((m ∷ g) ∷ gs) b c

-- Of DiskMods that the tester groups as it reads them, with at least two checkpoints among them, the
-- comparison looks at just those between the last two checkpoints.
pub last_group-add_mod :
    (a b c : List DiskMod) (cp1 cp2 : DiskMod)
    → is_checkpoint cp1 ≡ true
    → is_checkpoint cp2 ≡ true
    → any_checkpoint b ≡ false
    → any_checkpoint c ≡ false
    → last_group (foldl add_mod [] (a ++ cp1 ∷ (b ++ cp2 ∷ c))) ≡ ok b
unfolding checkpoint_groups
last_group-add_mod a b c cp1 cp2 h1 h2 hb hc =
    let parts : segments (a ++ cp1 ∷ (b ++ cp2 ∷ c)) ≡ segments a ++ b ∷ c ∷ [] =
      segments-append a (b ++ cp2 ∷ c) cp1 h1
      ∙ ap (λ x. segments a ++ x)
          (segments-append b c cp2 h2 ∙ rw (segments_plain b hb, segments_plain c hc)) in
    ap last_group (foldl-add_mod_nil (a ++ cp1 ∷ (b ++ cp2 ∷ c)) ∙ ap drop_leading parts)
    ∙ last_group-drop_leading a b c
