-- ===== src/ClassLoader/Examples.antt =====
-- src/utils/ClassLoader.h with a linker that knows one library.
use panda_scratchpad.Base.{◌≡◌, refl, false, arith, if◌then◌else◌}
use panda_scratchpad.Base.Texts.{codes, text_eq}
use panda_scratchpad.ClassLoader.{Linker, ClassLoader, fresh_loader, load_class, unload_class}
use panda_scratchpad.ClassLoader.Balance.{Balanced, start, next, load, unload_class-Balanced}

abbrev one_library : Linker
one_library = record {
  dlopen = λ path. if text_eq path (codes "test.so") then 7 else 0;
  dlsym = λ handle name. (8, false);
  create = λ f. 9;
}

abbrev with_class : ClassLoader
with_class =
    (load_class one_library (codes "test.so") (codes "test_case_get_instance")
      (codes "test_case_delete_instance") fresh_loader).1

unload_class-Balanced_example :
    ((unload_class with_class).loader_handle ≡ 0)
    × ((unload_class with_class).inst ≡ 0)
    × Balanced (unload_class with_class).calls
unload_class-Balanced_example =
    unload_class-Balanced one_library (λ f e. absurd (omega arith))
      (next start (
        load (codes "test.so") (codes "test_case_get_instance") (codes "test_case_delete_instance")
          fresh_loader refl))
