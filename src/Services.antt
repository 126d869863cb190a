-- ===== src/Services.antt =====
-- tools/service/ServiceRegistry.hpp: the services that modules offer each other, one per interface.
-- An interface is a number (its `type_index`), a service its address (0 for null). A
-- RegistrationInfo is known by its position in the list of all that were made, and `held` has one
-- entry for each shared pointer that a client of `get_service` keeps.
pub mod Counts
pub mod Invariant
pub mod Leaving
use access_control.Prelude.{
  ℕ, ◌+◌, ◌-◌, Bool, true, false, not, List, [], ◌∷◌, ◌++◌, Option, none, some, insert, lookup,
  length, get_or, erase_key, nat_eq, ◌==◌, ltb, leb, ℤ, pos, negsuc, Result, ok, err, guard, ◌>>◌,
  aborted, if◌then◌else◌,
}

pub record RegistrationInfo : Type 0 where
  pub service_interface : ℕ
  pub raw_service : ℕ
  pub unique_service : ℕ

pub data Event : Type 0 where
  service_registered : ℕ → Event
  service_unregistered : ℕ → Event

-- `events` are the signals sent, the oldest first.
pub record ServiceRegistry : Type 0 where
  pub services : List (ℕ × ℕ)
  pub registrations : List RegistrationInfo
  pub held : List ℕ
  pub events : List Event

abbrev pub empty_registry : ServiceRegistry
empty_registry = record { services = []; registrations = []; held = []; events = [] }

abbrev pub blank : RegistrationInfo
blank = record { service_interface = 0; raw_service = 0; unique_service = 0 }

abbrev pub registration : ServiceRegistry → ℕ → RegistrationInfo
registration r i = get_or r.registrations i blank

abbrev pub has_service : Option ℕ → Bool
has_service none = false
has_service (some i) = true

abbrev pub count : ℕ → List ℕ → ℕ
count i [] = 0
count i (j ∷ js) = let rest = count i js in if j == i then 1 + rest else rest

abbrev pub references : ℕ → List (ℕ × ℕ) → ℕ
references i [] = 0
references i ((t, j) ∷ m) = let rest = references i m in if j == i then 1 + rest else rest

-- The shared pointers to a registration, outside the call that asks.
abbrev pub pointers : ℕ → ServiceRegistry → ℕ
pointers i r = references i r.services + count i r.held

-- The handle is the position of the new registration.
abbrev pub register : ℕ → RegistrationInfo → ServiceRegistry → Result (ℕ × ServiceRegistry)
register t info r =
    guard (not (has_service (lookup t r.services))) aborted
    >> ok (
      length r.registrations,
      record r {
        services = insert t (length r.registrations) r.services;
        registrations = r.registrations ++ info ∷ [];
        events = r.events ++ service_registered t ∷ [];
      },
    )

unfoldable pub register_unique : ℕ → ℕ → ServiceRegistry → Result (ℕ × ServiceRegistry)
register_unique t srv r =
    register t (record { service_interface = t; raw_service = 0; unique_service = srv }) r

unfoldable pub register_service : ℕ → ℕ → ServiceRegistry → Result (ℕ × ServiceRegistry)
register_service t srv r =
    register t (record { service_interface = t; raw_service = srv; unique_service = 0 }) r

abbrev pub forget : ℕ → ServiceRegistry → ServiceRegistry
forget t r = record r {
  services = erase_key t r.services;
  events = r.events ++ service_unregistered t ∷ [];
}

-- By the handle; `registration` and `registration_sptr` are two pointers more.
unfoldable pub unregister_service : ℕ → ServiceRegistry → Result (Bool × ServiceRegistry)
unregister_service h r =
    let t = (registration r h).service_interface in
    if pointers h r == 0
    then ok (false, r)
    else if ltb 3 (pointers h r + 2)
    then ok (false, r)
    else guard (has_service (lookup t r.services)) aborted >> ok (true, forget t r)

abbrev pub unregister_found : ℕ → Option ℕ → ServiceRegistry → Bool × ServiceRegistry
unregister_found t none r = (false, r)
unregister_found t (some i) r = if ltb 3 (pointers i r + 1) then (false, r) else (true, forget t r)

-- By the interface; `registration` is the one pointer more.
unfoldable pub unregister_interface : ℕ → ServiceRegistry → Bool × ServiceRegistry
unregister_interface t r = unregister_found t (lookup t r.services) r

abbrev pub service_address : RegistrationInfo → ℕ
service_address info = if info.raw_service == 0 then info.unique_service else info.raw_service

abbrev pub get_found : Option ℕ → ServiceRegistry → ℕ × ServiceRegistry
get_found none r = (0, r)
get_found (some i) r = (service_address (registration r i), record r { held = i ∷ r.held })

-- The pointer returned shares the registration, also where it is null.
unfoldable pub get_service : ℕ → ServiceRegistry → ℕ × ServiceRegistry
get_service t r = get_found (lookup t r.services) r

-- A client destroys a pointer that it got.
abbrev remove_one : ℕ → List ℕ → List ℕ
remove_one i [] = []
remove_one i (j ∷ js) = let rest = remove_one i js in if j == i then js else j ∷ rest

unfoldable pub release : ℕ → ServiceRegistry → ServiceRegistry
release i r = record r { held = remove_one i r.held }

abbrev use_count_found : ℕ → Option ℕ → ServiceRegistry → Result ℤ
use_count_found srv none r = ok (negsuc 0)
use_count_found srv (some i) r =
    if srv == 0
    then ok (negsuc 0)
    else guard (leb 2 (pointers i r)) aborted >> ok (pos (pointers i r - 2))

unfoldable pub use_count : ℕ → ServiceRegistry → Result ℤ
unfolding get_service
use_count t r =
    let (srv, after) = get_service t r in use_count_found srv (lookup t r.services) after
