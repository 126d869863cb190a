-- ===== src/Examples/Boot.antt =====
-- Three modules, two of them of one level; the last one cannot start.
use access_control.Prelude.{
  ℕ, Failure, Bytes, bytes_eq, Bool, true, false, codes, List, [], ◌∷◌, ◌≡◌, refl, Option, none,
  some, pos, runtime_error, arith,
}
use access_control.Modules.{Config, Library, ModuleInfo, ModuleManager, load_module, init_modules}
use access_control.Modules.Levels.{Loads, first_library, load_module-IsOrdered}
use access_control.Modules.Starting.{IsUndone, init_modules-IsUndone}

abbrev by_letter : Bytes → ℕ
by_letter [] = 0
by_letter (b ∷ bs) = b

-- The first letter of a name is the level.
abbrev config : Bytes → Config
config name = record { file = name; level = pos (by_letter name) }

abbrev file_exists : Bytes → Bool
file_exists path = true

abbrev open_library : Bytes → Option Library
open_library path = some (record { module_name = codes "doors"; start = none })

abbrev info : Bytes → Option Failure → ModuleInfo
info name thrown = record {
  name = name;
  lib = record { module_name = name; start = thrown };
  running = false;
}

abbrev two_loaded : List ModuleInfo
two_loaded = info (codes "alarm") none ∷ info (codes "door") (some runtime_error) ∷ []

abbrev booting : ModuleManager
booting = record { path = codes "/lib" ∷ []; modules = two_loaded }

load_module-IsOrdered_example :
    Loads config file_exists open_library
      (codes "doors")
      (first_library config file_exists open_library (codes "doors") (codes "/lib" ∷ []))
      two_loaded
      (load_module config file_exists open_library (codes "doors") booting)
load_module-IsOrdered_example =
    load_module-IsOrdered config file_exists open_library (codes "doors") booting
      ((omega arith, tt), (tt, tt))

-- The call says that the module was loaded.
doors_lost : (load_module config file_exists open_library (codes "doors") booting) ≡ (true, booting)
unfolding load_module
doors_lost = refl

init_modules-IsUndone_example : IsUndone true two_loaded (init_modules two_loaded)
init_modules-IsUndone_example = init_modules-IsUndone true two_loaded (refl, (refl, tt))
