-- ===== src/Modules/Starting.antt =====
-- Which modules are started, and how they are stopped again.
use access_control.Prelude.{
  ◌≡◌, ◌≢◌, ◌⊎◌, inl, inr, refl, ap, Failure, ◌∙◌, Bool, true, false, Bool-cases, not, bytes_eq,
  bytes_beq_iff, ◌==◌, List, [], ◌∷◌, ◌++◌, append-nil, Option, none, some, Result, ok, err, guard,
  ◌>>◌, aborted, module_exception,
}
use access_control.Modules.{
  ModuleInfo, Action, started, stopped, init_modules, init_module, stop_all, stop_module, and_then,
  started_by,
}

abbrev pub starts : List ModuleInfo → List Action
starts [] = []
starts (m ∷ ms) = started m.name ∷ starts ms

-- To stop what was started, the last first.
abbrev pub undo : Bool → List Action → List Action
undo soft [] = []
undo soft (started name ∷ actions) = undo soft actions ++ stopped name soft ∷ []
undo soft (stopped name how ∷ actions) = undo soft actions

abbrev pub AllIdle : List ModuleInfo → Type 0
AllIdle [] = Unit
AllIdle (m ∷ ms) = (m.running ≡ false) × AllIdle ms

stop_idle : (soft : Bool) (ms : List ModuleInfo) → AllIdle ms → (stop_all soft ms).1 ≡ []
unfolding stop_module
stop_idle soft [] w = refl
stop_idle soft (m ∷ ms) w = rw w.0 (append-nil _ ∙ stop_idle soft ms w.1)

-- The library exports the name of the module, and its start throws nothing.
abbrev pub Startable : ModuleInfo → Type 0
Startable m = (m.name ≡ m.lib.module_name) × (m.lib.start ≡ none)

abbrev pub AllStartable : List ModuleInfo → Type 0
AllStartable [] = Unit
AllStartable (m ∷ ms) = Startable m × AllStartable ms

-- What was started by the end, or by the exception: all modules, or those before the first that
-- cannot be started.
abbrev pub Reached : Option Failure → List ModuleInfo → List Action → Type 0
Reached none ms actions = AllStartable ms × (actions ≡ starts ms)
Reached (some e) ms actions =
    (before : List ModuleInfo) × (m : ModuleInfo) × (rest : List ModuleInfo) × (ms
      ≡ before ++ m ∷ rest)
    × AllStartable before
    × (actions ≡ starts before)
    × (¬ Startable m)
    × (e ≡ module_exception)

abbrev pub IsUndone :
    Bool → List ModuleInfo → Option Failure × List ModuleInfo × List Action → Type 0
IsUndone soft ms (thrown, after, actions) =
    Reached thrown ms actions × ((stop_all soft after).1 ≡ undo soft actions)

start_cases :
    (o : Option Failure) (m : ModuleInfo)
    → ((o ≡ none) × (started_by o m ≡ ok (record m { running = true })))
      ⊎ ((o ≢ none) × (started_by o m ≡ err module_exception))
start_cases none m = inl (refl, refl)
start_cases (some e) m = inr (λ h. cc, refl)

idle_guard :
    (running : Bool) (r : Result ModuleInfo)
    → running ≡ false
    → (guard (not running) aborted >> r) ≡ r
idle_guard true r h = cc
idle_guard false r h = refl

init_cases :
    (m : ModuleInfo)
    → m.running ≡ false
    → (Startable m × (init_module m ≡ ok (record m { running = true })))
      ⊎ ((¬ Startable m) × (init_module m ≡ err module_exception))
unfolding init_module
init_cases m idle = elim (Bool-cases (m.name == m.lib.module_name)) [
  | inr other ↦
      let differs : ¬ Startable m =
        λ h. let g = (bytes_beq_iff m.name m.lib.module_name).1 h.0 in cc in
      inr (differs, idle_guard m.running _ idle ∙ rw other refl)
  | inl same ↦ elim (start_cases m.lib.start m) [
    | inl (quiet, e) ↦ inl (
      ((bytes_beq_iff m.name m.lib.module_name).0 same, quiet),
      idle_guard m.running _ idle ∙ rw same e,
    )
    | inr (thrown, e) ↦ inr (λ h. thrown h.1, idle_guard m.running _ idle ∙ rw same e)
  ]
]

one_more :
    (m : ModuleInfo) (ms : List ModuleInfo) (thrown : Option Failure) (actions : List Action)
    → Startable m
    → Reached thrown ms actions
    → Reached thrown (m ∷ ms) (started m.name ∷ actions)
one_more m ms none actions can (all, e) = ((can, all), ap (λ l. started m.name ∷ l) e)
one_more m ms (some e) actions can (before, n, rest, split, all, ran, bad, is_e) = (
  m ∷ before,
  n,
  rest,
  ap (λ l. m ∷ l) split,
  (can, all),
  ap (λ l. started m.name ∷ l) ran,
  bad,
  is_e,
)

and_then-IsUndone :
    (soft : Bool) (m : ModuleInfo) (ms : List ModuleInfo)
    (rest : Option Failure × List ModuleInfo × List Action)
    → AllIdle (m ∷ ms)
    → IsUndone soft ms rest
    → IsUndone soft (m ∷ ms) (and_then m ms rest (init_module m))
unfolding stop_module
and_then-IsUndone soft m ms (thrown, after, actions) w (reached, back) = elim (init_cases m w.0) [
  | inl (can, e) ↦
      rw e (one_more m ms thrown actions can reached, ap (λ l. l ++ stopped m.name soft ∷ []) back)
  | inr (cannot, e) ↦ rw e (([], m, ms, refl, tt, refl, cannot, refl), stop_idle soft (m ∷ ms) w)
]

-- Idle modules are started in their order, up to the first one whose library exports another name or
-- throws; the exception then is a ModuleException. Stopping the modules stops just those that were
-- started, the last first.
pub init_modules-IsUndone :
    (soft : Bool) (ms : List ModuleInfo) → AllIdle ms → IsUndone soft ms (init_modules ms)
unfolding init_modules stop_all
init_modules-IsUndone soft [] w = ((tt, refl), refl)
init_modules-IsUndone soft (m ∷ ms) w =
    and_then-IsUndone soft m ms (init_modules ms) w (init_modules-IsUndone soft ms w.1)
