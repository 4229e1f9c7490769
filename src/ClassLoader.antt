-- ===== src/ClassLoader.antt =====
-- src/utils/ClassLoader.h: loading and unloading the library of a test case. The dynamic linker and the
-- library's functions are parameters; what is asked of them is kept in order.
pub mod Balance
pub mod Examples
use panda_scratchpad.Base.{
  ℕ, zero, suc, Bool, true, false, ◌||◌, List, [], ◌∷◌, ◌++◌, ◌==◌, if◌then◌else◌,
}
use panda_scratchpad.Base.Int.{ℤ, pos, negsuc}
use panda_scratchpad.Base.Words.{Bytes}

-- Pointers; NULL is 0.
pub record Linker : Type 0 where
  pub dlopen : Bytes → ℕ
  -- the address, and whether `dlerror` then reports an error
  pub dlsym : ℕ → Bytes → ℕ × Bool
  -- what the factory at an address makes
  pub create : ℕ → ℕ

-- The calls that take and give back something.
pub data Call : Type 0 where
  opened : ℕ → Call
  closed : ℕ → Call
  created : ℕ → Call
  destroyed : ℕ → Call

pub record ClassLoader : Type 0 where
  pub loader_handle : ℕ
  pub factory : ℕ
  pub defactory : ℕ
  pub inst : ℕ
  pub calls : List Call

abbrev pub fresh_loader : ClassLoader
fresh_loader = record { loader_handle = 0; factory = 0; defactory = 0; inst = 0; calls = [] }

abbrev pub success : ℤ
success = pos 0

abbrev pub case_handle_err : ℤ
case_handle_err = negsuc 0

abbrev pub case_init_err : ℤ
case_init_err = negsuc 1

abbrev pub case_dest_err : ℤ
case_dest_err = negsuc 2

-- A symbol is missing: the library is closed again.
abbrev drop_library : ℤ → ClassLoader → ℤ × ClassLoader
drop_library res l = (
  res,
  record l {
    factory = 0;
    defactory = 0;
    loader_handle = 0;
    calls = l.calls ++ closed l.loader_handle ∷ [];
  },
)

unfoldable pub load_class :
    Linker → (path factory_name defactory_name : Bytes) → ClassLoader → ℤ × ClassLoader
load_class linker path factory_name defactory_name l =
    let handle = linker.dlopen path in
    let f = linker.dlsym handle factory_name in
    let g = linker.dlsym handle defactory_name in
    let l1 = record l { loader_handle = handle; calls = l.calls ++ opened handle ∷ [] } in
    let l2 = record l1 { factory = f.0 } in
    let l3 = record l2 { defactory = g.0 } in
    if handle == 0
    then (case_handle_err, record l { loader_handle = 0 })
    else if f.1
    then drop_library case_init_err l2
    else if g.1
    then drop_library case_dest_err l3
    else (
      success,
      record l3 { inst = linker.create f.0; calls = l3.calls ++ created (linker.create f.0) ∷ [] },
    )

unfoldable pub unload_class : ClassLoader → ClassLoader
unload_class l = if l.loader_handle == 0 || l.inst == 0 then l else record {
  loader_handle = 0;
  factory = 0;
  defactory = 0;
  inst = 0;
  calls = l.calls ++ (destroyed l.inst ∷ closed l.loader_handle ∷ []);
}
