-- ===== src/Examples/Clients.antt =====
-- Two clients of the remote control: one may do all but save, the other may only list the modules.
-- A third one has two entries.
use access_control.Prelude.{
  ℕ, suc, ◌≡◌, refl, Bool, true, false, Bytes, bytes_eq, bytes_beq, ◌==◌, codes, List, [], ◌∷◌,
  Option, none, some, ok, if◌then◌else◌,
}
use access_control.Remote.{
  RemoteControlSecurity, Entry, default_access, process_commands, process_security_entry,
  process_entries, process_config, allow_request, handle_msg, Handler,
}
use access_control.Remote.Permitted.{may, allow_request-may, handle_msg_denied}

abbrev to_bool : Bytes → Option Bool
to_bool text =
    if text == codes "true" then some true else if text == codes "false" then some false else none

abbrev first_entry : Entry
first_entry =
    (codes "pk", codes "alice")
    ∷ (codes "default", codes "true")
    ∷ (codes "SAVE", codes "false")
    ∷ []

abbrev second_entry : Entry
second_entry = (codes "pk", codes "bob") ∷ (codes "MODULE_LIST", codes "true") ∷ []

abbrev config : Option (List (Bytes × Entry))
config = some ((codes "map", first_entry) ∷ (codes "map", second_entry) ∷ [])

abbrev configured : RemoteControlSecurity
configured = record {
  unrestricted = false;
  default_permissions = (codes "alice", true) ∷ (codes "bob", false) ∷ [];
  permissions = (codes "alice", codes "SAVE" ∷ []) ∷ (codes "bob", codes "MODULE_LIST" ∷ []) ∷ [];
}

config_read : process_config to_bool config ≡ ok configured
unfolding process_config process_entries process_security_entry process_commands default_access
    bytes_beq
config_read = refl

save_denied : may to_bool (codes "alice") (codes "SAVE") config ≡ false
unfolding default_access bytes_beq
save_denied = refl

abbrev save_handler : Handler ℕ
save_handler args w = (true, codes "OK" ∷ [], suc w)

allow_request-may_example :
    allow_request (codes "bob") (codes "MODULE_LIST") configured
    ≡ may to_bool (codes "bob") (codes "MODULE_LIST") config
allow_request-may_example =
    allow_request-may to_bool (codes "bob") (codes "MODULE_LIST") config configured config_read

handle_msg_denied_example :
    (why : Bytes) × (handle_msg ℕ
        ((codes "SAVE", save_handler) ∷ [])
        configured
        (codes "alice")
        (codes "id" ∷ codes "SAVE" ∷ [])
        0
      ≡ ok (codes "id" ∷ codes "KO" ∷ why ∷ [], 0))
handle_msg_denied_example =
    handle_msg_denied to_bool ℕ ((codes "SAVE", save_handler) ∷ []) (codes "alice") (codes "SAVE")
      (codes "id") [] config configured 0 config_read save_denied

-- A client with two entries of different defaults, that both deny a command: it is allowed.
denied_twice :
    may to_bool (codes "carol") (codes "SAVE") (
      some (
        (
          codes "map",
          (codes "pk", codes "carol")
              ∷ (codes "default", codes "true")
              ∷ (codes "SAVE", codes "false")
              ∷ [],
        )
        ∷ (
          codes "map",
          (codes "pk", codes "carol")
              ∷ (codes "default", codes "false")
              ∷ (codes "SAVE", codes "false")
              ∷ [],
        )
        ∷ []))
    ≡ true
unfolding default_access bytes_beq
denied_twice = refl
