-- ===== src/ClassLoader/Balance.antt =====
-- What a user of src/utils/ClassLoader.h takes from the linker is given back.
use panda_scratchpad.Base.{
  ℕ, ◌≡◌, ◌≢◌, refl, inl, inr, Bool, true, false, ◌||◌, List, [], ◌∷◌, ◌++◌, ◌==◌, arith,
  append_assoc, Bool-cases,
}
use panda_scratchpad.Base.Words.{Bytes}
use panda_scratchpad.ClassLoader.{
  Linker, Call, opened, closed, created, destroyed, ClassLoader, fresh_loader, load_class,
  unload_class,
}

-- Calls in pairs: each library is closed before the next one is opened, and the instance in it
-- destroyed before that.
pub data Balanced : List Call → Type 0 where
  no_calls : Balanced []
  given_up :
      {cs ds : List Call} (h : ℕ)
      → Balanced cs
      → ds ≡ cs ++ (opened h ∷ closed h ∷ [])
      → Balanced ds
  used :
      {cs ds : List Call} (h i : ℕ)
      → Balanced cs
      → ds ≡ cs ++ (opened h ∷ created i ∷ destroyed i ∷ closed h ∷ [])
      → Balanced ds

-- Between two operations: nothing is held, or one library with one instance.
pub data Holds (l : ClassLoader) : Type 0 where
  free : l.loader_handle ≡ 0 → l.inst ≡ 0 → Balanced l.calls → Holds l
  loaded :
      (cs : List Call)
      → l.loader_handle ≢ 0
      → l.inst ≢ 0
      → Balanced cs
      → l.calls ≡ cs ++ (opened l.loader_handle ∷ created l.inst ∷ [])
      → Holds l

module _ (linker : Linker) where
  -- The steps of a user that loads only while there is no instance.
  pub data Step : ClassLoader → ClassLoader → Type 0 where
    load :
        (path factory_name defactory_name : Bytes) (l : ClassLoader)
        → l.inst ≡ 0
        → Step l (load_class linker path factory_name defactory_name l).1
    unload : (l : ClassLoader) → Step l (unload_class l)

  pub data Reach : ClassLoader → Type 0 where
    start : Reach fresh_loader
    next : {l m : ClassLoader} → Reach l → Step l m → Reach m

  load_class-Holds :
      (path factory_name defactory_name : Bytes) (l : ClassLoader)
      → ((f : ℕ) → linker.create f ≢ 0)
      → l.inst ≡ 0
      → Balanced l.calls
      → Holds (load_class linker path factory_name defactory_name l).1
  unfolding load_class
  load_class-Holds path factory_name defactory_name l makes e b = elim (Bool-cases (handle == 0)) [
    | inl q ↦ rw (q, load_class) (free refl e b)
    | inr q ↦ elim (Bool-cases f.1) [
      | inl r ↦
          rw (q, r, load_class)
            (free refl e (given_up handle b (append_assoc l.calls (opened handle ∷ []) _)))
      | inr r ↦ elim (Bool-cases g.1) [
        | inl s ↦
            rw (q, r, s, load_class)
              (free refl e (given_up handle b (append_assoc l.calls (opened handle ∷ []) _)))
        | inr s ↦
            rw (q, r, s, load_class)
              (loaded l.calls (λ z. absurd (ground arith)) (makes f.0) b
                (append_assoc l.calls (opened handle ∷ []) _))
      ]
    ]
  ]
    where
      handle : ℕ
      handle = linker.dlopen path

      f : ℕ × Bool
      f = linker.dlsym handle factory_name

      g : ℕ × Bool
      g = linker.dlsym handle defactory_name

  unload_class-free :
      (l : ClassLoader)
      → Holds l
      → ((unload_class l).loader_handle ≡ 0)
        × ((unload_class l).inst ≡ 0)
        × Balanced (unload_class l).calls
  unfolding unload_class
  unload_class-free l (free h i b) =
      let test : (l.loader_handle == 0 || l.inst == 0) ≡ true = ground (arith, h) in
      rw (test, unload_class) (h, i, b)
  unload_class-free l (loaded cs h i b e) =
      let test : (l.loader_handle == 0 || l.inst == 0) ≡ false = ground (arith, h, i) in
      rw (test, unload_class)
        (refl, refl, used l.loader_handle l.inst b (rw e (append_assoc cs _ _)))

  Reach-Holds : {l : ClassLoader} → ((f : ℕ) → linker.create f ≢ 0) → Reach l → Holds l
  Reach-Holds makes start = free refl refl no_calls
  Reach-Holds makes (next r (load path factory_name defactory_name l e)) =
      load_class-Holds path factory_name defactory_name l makes e (held (Reach-Holds makes r))
    where
      held : Holds l → Balanced l.calls
      held (free h i b) = b
      held (loaded cs h i b f) = absurd (i e)
  Reach-Holds makes (next r (unload l)) =
      let (h, i, b) = unload_class-free l (Reach-Holds makes r) in free h i b

  -- Where factories never give NULL, and a class is loaded only while there is no instance: after any
  -- sequence of loads, failed ones included, and unloads, one more unload leaves no library and no
  -- instance, each library that was opened has been closed once before the next was opened, and each
  -- instance destroyed once before its library was closed.
  pub unload_class-Balanced :
      {l : ClassLoader}
      → ((f : ℕ) → linker.create f ≢ 0)
      → Reach l
      → ((unload_class l).loader_handle ≡ 0)
        × ((unload_class l).inst ≡ 0)
        × Balanced (unload_class l).calls
  unload_class-Balanced {l} makes r = unload_class-free l (Reach-Holds makes r)
