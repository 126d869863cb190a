-- ===== src/Modules/Levels.antt =====
-- The order in which modules start and stop.
use access_control.Prelude.{
  ◌≡◌, ◌↔◌, ◌⊎◌, inl, inr, refl, sym, ap, subst, ◌∙◌, Bool, true, false, Bool-cases, Bytes,
  bytes_eq, List, [], ◌∷◌, Memᴰ, Option, none, some, ℤ, ltb_ℤ, ◌<ℤ◌, <ℤ_trans, ltb_ℤ→<, ltb_ℤ_same,
  arith, if◌then◌else◌,
}
use access_control.Modules.{
  Config, ModuleInfo, ModuleManager, Library, level_of, insert_module, load_module, search_path,
  loaded, full_path,
}

module _ (config : Bytes → Config) where
  abbrev AllAbove : ℤ → List ModuleInfo → Type 0
  AllAbove l [] = Unit
  AllAbove l (m ∷ ms) = (l <ℤ level_of config m) × AllAbove l ms

  -- Each module has a level above that of the modules before it.
  abbrev pub IsOrdered : List ModuleInfo → Type 0
  IsOrdered [] = Unit
  IsOrdered (m ∷ ms) = AllAbove (level_of config m) ms × IsOrdered ms

  AllAbove-trans : (k l : ℤ) (ms : List ModuleInfo) → k <ℤ l → AllAbove l ms → AllAbove k ms
  AllAbove-trans k l [] h a = tt
  AllAbove-trans k l (m ∷ ms) h a =
      (<ℤ_trans k l (level_of config m) h a.0, AllAbove-trans k l ms h a.1)

  insert-AllAbove :
      (l : ℤ) (m : ModuleInfo) (ms : List ModuleInfo)
      → l <ℤ level_of config m
      → AllAbove l ms
      → AllAbove l (insert_module config m ms)
  unfolding insert_module
  insert-AllAbove l m [] h a = (h, tt)
  insert-AllAbove l m (n ∷ ns) h a =
      elim (Bool-cases (ltb_ℤ (level_of config m) (level_of config n))) [
        | inl before ↦ rw before (h, a)
        | inr not_before ↦ elim (Bool-cases (ltb_ℤ (level_of config n) (level_of config m))) [
          | inl behind ↦ rw (not_before, behind) (a.0, insert-AllAbove l m ns h a.1)
          | inr same ↦ rw (not_before, same) a
        ]
      ]

  insert-IsOrdered :
      (m : ModuleInfo) (ms : List ModuleInfo) → IsOrdered ms → IsOrdered (insert_module config m ms)
  unfolding insert_module
  insert-IsOrdered m [] w = (tt, tt)
  insert-IsOrdered m (n ∷ ns) w =
      elim (Bool-cases (ltb_ℤ (level_of config m) (level_of config n))) [
        | inl before ↦
            let lower = ltb_ℤ→< (level_of config m) (level_of config n) before in
            rw before ((lower, AllAbove-trans _ (level_of config n) ns lower w.0), w)
        | inr not_before ↦ elim (Bool-cases (ltb_ℤ (level_of config n) (level_of config m))) [
          | inl behind ↦
              let lower = ltb_ℤ→< (level_of config n) (level_of config m) behind in
              rw (not_before, behind)
                (insert-AllAbove (level_of config n) m ns lower w.0, insert-IsOrdered m ns w.1)
          | inr same ↦ rw (not_before, same) w
        ]
      ]

  irreflexive : (a b : ℤ) → b ≡ a → a <ℤ b → ⊥
  irreflexive a b e h = let g = subst (λ x. a <ℤ x) e h in omega arith

  past_head :
      (n : ModuleInfo) (ns : List ModuleInfo) (x : ModuleInfo) {l : ℤ}
      → Memᴰ x (n ∷ ns)
      → level_of config n <ℤ l
      → level_of config x ≡ l
      → Memᴰ x ns
  past_head n ns x (Memᴰ.head e) lower same =
      absurd (irreflexive _ _ (sym same ∙ ap (level_of config) e) lower)
  past_head n ns x (Memᴰ.tail t) lower same = t

  -- A module of this level is there.
  abbrev pub HasLevel : ℤ → List ModuleInfo → Type 0
  HasLevel l ms = (n : ModuleInfo) × Memᴰ n ms × (level_of config n ≡ l)

  above_mem :
      {x : ModuleInfo} (l : ℤ) (ms : List ModuleInfo)
      → AllAbove l ms
      → Memᴰ x ms
      → l <ℤ level_of config x
  above_mem l [] a t = elim t [ ]
  above_mem l (m ∷ ms) a (Memᴰ.head e) = subst (λ y. l <ℤ level_of config y) (sym e) a.0
  above_mem l (m ∷ ms) a (Memᴰ.tail t) = above_mem l ms a.1 t

  past_all :
      (n : ModuleInfo) (ns : List ModuleInfo) (m : ModuleInfo)
      → AllAbove (level_of config m) (n ∷ ns)
      → ¬ HasLevel (level_of config m) (n ∷ ns)
  past_all n ns m above (x, t, e) =
      irreflexive _ (level_of config x) e (above_mem (level_of config m) (n ∷ ns) above t)

  -- An element of a list, or a new one.
  Mem-swap :
      {x m n : ModuleInfo} {ns after : List ModuleInfo}
      → (Memᴰ x after ↔ ((x ≡ m) ⊎ Memᴰ x ns))
      → Memᴰ x (n ∷ after) ↔ ((x ≡ m) ⊎ Memᴰ x (n ∷ ns))
  Mem-swap {x = x} {m = m} {n = n} {ns = ns} {after = after} (to, from) = (swap_to, swap_from)
    where
      swap_to : Memᴰ x (n ∷ after) → (x ≡ m) ⊎ Memᴰ x (n ∷ ns)
      swap_to (Memᴰ.head e) = inr (Memᴰ.head e)
      swap_to (Memᴰ.tail t) = elim (to t) [ inl e ↦ inl e | inr u ↦ inr (Memᴰ.tail u) ]

      swap_from : (x ≡ m) ⊎ Memᴰ x (n ∷ ns) → Memᴰ x (n ∷ after)
      swap_from (inl e) = Memᴰ.tail (from (inl e))
      swap_from (inr (Memᴰ.head e)) = Memᴰ.head e
      swap_from (inr (Memᴰ.tail t)) = Memᴰ.tail (from (inr t))

  Mem-front : {x m : ModuleInfo} {ns : List ModuleInfo} → Memᴰ x (m ∷ ns) ↔ ((x ≡ m) ⊎ Memᴰ x ns)
  Mem-front {x = x} {m = m} {ns = ns} =
      (front, λ h. elim h [ inl e ↦ Memᴰ.head e | inr t ↦ Memᴰ.tail t ])
    where
      front : Memᴰ x (m ∷ ns) → (x ≡ m) ⊎ Memᴰ x ns
      front (Memᴰ.head e) = inl e
      front (Memᴰ.tail t) = inr t

  insert-added :
      (m : ModuleInfo) (ms : List ModuleInfo)
      → IsOrdered ms
      → (HasLevel (level_of config m) ms × (insert_module config m ms ≡ ms))
        ⊎ ((¬ HasLevel (level_of config m) ms)
            × ((x : ModuleInfo) → Memᴰ x (insert_module config m ms) ↔ ((x ≡ m) ⊎ Memᴰ x ms)))
  unfolding insert_module
  insert-added m [] w = inr (λ (x, t, e). elim t [ ], λ x. Mem-front)
  insert-added m (n ∷ ns) w = elim (Bool-cases (ltb_ℤ (level_of config m) (level_of config n))) [
    | inl before ↦
        let lower = ltb_ℤ→< (level_of config m) (level_of config n) before in
        let past : AllAbove (level_of config m) (n ∷ ns) =
          (lower, AllAbove-trans _ (level_of config n) ns lower w.0) in
        rw before (inr (past_all n ns m past, λ x. Mem-front))
    | inr not_before ↦ elim (Bool-cases (ltb_ℤ (level_of config n) (level_of config m))) [
      | inl behind ↦
          let lower = ltb_ℤ→< (level_of config n) (level_of config m) behind in
          rw (not_before, behind)
            (elim (insert-added m ns w.1) [
              | inl ((x, t, e), kept) ↦ inl ((x, Memᴰ.tail t, e), ap (λ l. n ∷ l) kept)
              | inr (new, f) ↦
                  inr (λ (x, t, e). new (x, past_head n ns x t lower e, e), λ x. Mem-swap (f x))
            ])
      | inr same ↦
          rw (not_before, same)
            (inl (
              (
                n,
                Memᴰ.head refl,
                ltb_ℤ_same (level_of config m) (level_of config n) not_before same,
              ),
              refl,
            ))
    ]
  ]

  module _ (file_exists : Bytes → Bool) (open_library : Bytes → Option Library) where
    -- The module as it is loaded, idle.
    abbrev pub loaded_info : Bytes → Library → ModuleInfo
    loaded_info name lib = record { name = name; lib = lib; running = false }

    abbrev pub there : Bytes → Bytes → Bool
    there name dir = file_exists (full_path config file_exists open_library dir (config name).file)

    -- The library in the first directory that has the file, if it opens.
    abbrev pub first_library : Bytes → List Bytes → Option Library
    first_library name [] = none
    first_library name (dir ∷ dirs) =
        let later = first_library name dirs in
        if there name dir
        then open_library (full_path config file_exists open_library dir (config name).file)
        else later

    -- The module has been added to the others, or one of its level was there.
    abbrev pub IsAdded : Bytes → Library → List ModuleInfo → List ModuleInfo → Type 0
    IsAdded name lib before after =
        (HasLevel (config name).level before × (after ≡ before))
        ⊎ ((¬ HasLevel (config name).level before)
            × ((n : ModuleInfo) → Memᴰ n after ↔ ((n ≡ loaded_info name lib) ⊎ Memᴰ n before)))

    -- What loading one module does to an ordered list, for the library that was found.
    abbrev pub Loads : Bytes → Option Library → List ModuleInfo → Bool × ModuleManager → Type 0
    Loads name none before (done, after) = (done ≡ false) × (after.modules ≡ before)
    Loads name (some lib) before (done, after) =
        (done ≡ true) × IsOrdered after.modules × IsAdded name lib before after.modules

    loaded-Loads :
        (name : Bytes) (o : Option Library) (m : ModuleManager)
        → IsOrdered m.modules
        → Loads name o m.modules (loaded config file_exists open_library name o m)
    loaded-Loads name none m w = (refl, refl)
    loaded-Loads name (some lib) m w =
        let info = loaded_info name lib in
        (refl, insert-IsOrdered info m.modules w, insert-added info m.modules w)

    search-Loads :
        (name : Bytes) (dirs : List Bytes) (m : ModuleManager)
        → IsOrdered m.modules
        → Loads name
            (first_library name dirs)
            m.modules
            (search_path config file_exists open_library name dirs m)
    unfolding search_path
    search-Loads name [] m w = (refl, refl)
    search-Loads name (dir ∷ dirs) m w = elim (Bool-cases (there name dir)) [
      | inl here ↦ rw here (loaded-Loads name _ m w)
      | inr away ↦ rw away (search-Loads name dirs m w)
    ]

    -- On modules in the order of their levels, no two of one level: loading one returns true exactly
    -- where the first directory of the path that has its file has a library that opens. It is then
    -- added, in that order; but where a module of its level is there, nothing is, although true is
    -- returned. Where false is returned, nothing changes.
    pub load_module-IsOrdered :
        (name : Bytes) (m : ModuleManager)
        → IsOrdered m.modules
        → Loads name
            (first_library name m.path)
            m.modules
            (load_module config file_exists open_library name m)
    unfolding load_module
    load_module-IsOrdered name m w = search-Loads name m.path m w
