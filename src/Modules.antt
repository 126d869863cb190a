-- ===== src/Modules.antt =====
-- core/module_manager.cpp: loading, starting and stopping the modules. The configuration of a module,
-- the files that exist and what is in a library are parameters: a library may fail to open, and
-- starting a module may throw. `modules_` is a std::set ordered by `operator<`, so it is a list here,
-- in the order of the set.
pub mod Levels
pub mod Starting
use access_control.Prelude.{
  ℕ, Bool, true, false, not, Bytes, bytes_eq, ◌==◌, any, codes, List, [], ◌∷◌, ◌++◌, Option, none,
  some, ℤ, ltb_ℤ, Failure, aborted, config_exception, module_exception, Result, ok, err, guard,
  ◌>>◌, ◌>>=◌, if◌then◌else◌,
}

pub record Config : Type 0 where
  pub file : Bytes
  pub level : ℤ

-- `start` is what `start_module` throws at once, if anything.
pub record Library : Type 0 where
  pub module_name : Bytes
  pub start : Option Failure

pub record ModuleInfo : Type 0 where
  pub name : Bytes
  pub lib : Library
  pub running : Bool

pub record ModuleManager : Type 0 where
  pub path : List Bytes
  pub modules : List ModuleInfo

-- `soft` only asks the module to stop.
pub data Action : Type 0 where
  started : Bytes → Action
  stopped : Bytes → Bool → Action

unfoldable pub add_to_path : Bytes → ModuleManager → ModuleManager
add_to_path dir m = if any (λ d. d == dir) m.path then m else record m { path = m.path ++ dir ∷ [] }

abbrev pub modules_names : List ModuleInfo → List Bytes
modules_names [] = []
modules_names (m ∷ ms) = m.name ∷ modules_names ms

unfoldable pub has_module : Bytes → ModuleManager → Bool
has_module name m = any (λ i. i.name == name) m.modules

module _ (config : Bytes → Config) where
  abbrev pub level_of : ModuleInfo → ℤ
  level_of m = (config m.name).level

  -- `std::set::insert`: an element that is neither before nor after another one is not inserted.
  unfoldable pub insert_module : ModuleInfo → List ModuleInfo → List ModuleInfo
  insert_module m [] = m ∷ []
  insert_module m (n ∷ ns) =
      let rest = insert_module m ns in
      if ltb_ℤ (level_of m) (level_of n)
      then m ∷ n ∷ ns
      else if ltb_ℤ (level_of n) (level_of m)
      then n ∷ rest
      else n ∷ ns

  module _ (file_exists : Bytes → Bool) (open_library : Bytes → Option Library) where
    abbrev pub loaded : Bytes → Option Library → ModuleManager → Bool × ModuleManager
    loaded name none m = (false, m)
    loaded name (some lib) m = (
      true,
      record m {
        modules = insert_module (record { name = name; lib = lib; running = false }) m.modules;
      },
    )

    abbrev pub full_path : Bytes → Bytes → Bytes
    full_path dir file = dir ++ codes "/" ++ file

    unfoldable pub search_path : Bytes → List Bytes → ModuleManager → Bool × ModuleManager
    unfolding insert_module
    search_path name [] m = (false, m)
    search_path name (dir ∷ dirs) m =
        let rest = search_path name dirs m in
        if file_exists (full_path dir (config name).file)
        then loaded name (open_library (full_path dir (config name).file)) m
        else rest

    unfoldable pub load_module : Bytes → ModuleManager → Bool × ModuleManager
    unfolding search_path
    load_module name m = search_path name m.path m

-- Whatever is thrown while a module starts is nested in a ModuleException.
abbrev pub started_by : Option Failure → ModuleInfo → Result ModuleInfo
started_by none m = ok (record m { running = true })
started_by (some e) m = err module_exception

unfoldable pub init_module : ModuleInfo → Result ModuleInfo
init_module m =
    guard (not m.running) aborted
    >> (if m.name == m.lib.module_name then started_by m.lib.start m else err module_exception)

abbrev pub and_then :
    ModuleInfo
    → List ModuleInfo
    → (Option Failure × List ModuleInfo × List Action)
    → Result ModuleInfo
    → Option Failure × List ModuleInfo × List Action
and_then m ms rest (err e) = (some e, m ∷ ms, [])
and_then m ms (thrown, after, actions) (ok n) = (thrown, n ∷ after, started n.name ∷ actions)

-- The exception thrown, if any, with the modules and what was started by then.
unfoldable pub init_modules : List ModuleInfo → Option Failure × List ModuleInfo × List Action
unfolding init_module
init_modules [] = (none, [], [])
init_modules (m ∷ ms) = let rest = init_modules ms in and_then m ms rest (init_module m)

unfoldable pub stop_module : Bool → ModuleInfo → ModuleInfo × List Action
stop_module soft m =
    if m.running then (record m { running = soft }, stopped m.name soft ∷ []) else (m, [])

-- From the last to the first.
abbrev pub stop_all : Bool → List ModuleInfo → List ModuleInfo × List Action
unfolding stop_module
stop_all soft [] = ([], [])
stop_all soft (m ∷ ms) =
    let (after, actions) = stop_all soft ms in
    let (n, last) = stop_module soft m in (n ∷ after, actions ++ last)

unfoldable pub stop_modules : Bool → ModuleManager → ModuleManager × List Action
unfolding stop_all
stop_modules soft m =
    let (after, actions) = stop_all soft m.modules in
    (record m { modules = if soft then after else [] }, actions)
