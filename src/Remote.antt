-- ===== src/Remote.antt =====
-- core/RemoteControlSecurity.cpp and the dispatch of core/RemoteControl.cpp: which client of the
-- remote control may run which command. The reading of a Boolean is a parameter, and so is the text
-- that the client's key has. An entry of the configuration is the list of its children, each with
-- its name and its text.
pub mod Exceptions
pub mod Permitted
use access_control.Prelude.{
  Bool, true, false, not, ◌||◌, Bytes, bytes_eq, ◌==◌, any, codes, List, [], ◌∷◌, ◌++◌, Option,
  none, some, lookup, insert, runtime_error, aborted, Result, ok, err, enforce, guard, ◌>>◌, ◌>>=◌,
  if◌then◌else◌,
}

pub record RemoteControlSecurity : Type 0 where
  pub unrestricted : Bool
  pub default_permissions : List (Bytes × Bool)
  pub permissions : List (Bytes × List Bytes)

abbrev pub Entry : Type 0
Entry = List (Bytes × Bytes)

abbrev pub unconfigured : RemoteControlSecurity
unconfigured = record { unrestricted = false; default_permissions = []; permissions = [] }

abbrev pub or_empty : Option (List Bytes) → List Bytes
or_empty none = []
or_empty (some cmds) = cmds

abbrev pub differ : Bool → Bool → Bool
differ true b = not b
differ false b = b

-- `permissions_[pk]`, which adds a key that is missing.
abbrev pub commands_of : Bytes → RemoteControlSecurity → List Bytes
commands_of pk s = or_empty (lookup pk s.permissions)

abbrev pub set_commands : Bytes → List Bytes → RemoteControlSecurity → RemoteControlSecurity
set_commands pk cmds s = record s { permissions = insert pk cmds s.permissions }

abbrev listed : Bool → Bool → Bool
listed true found = not found
listed false found = found

abbrev pub permitted : Bytes → Option Bool → Option (List Bytes) → Bool
permitted req (some granted) (some cmds) = listed granted (any (λ c. c == req) cmds)
permitted req (some granted) none = false
permitted req none cmds = false

unfoldable pub allow_request : Bytes → Bytes → RemoteControlSecurity → Bool
allow_request user_pubkey req s =
    if s.unrestricted
    then true
    else permitted req (lookup user_pubkey s.default_permissions) (lookup user_pubkey s.permissions)

module _ (to_bool : Bytes → Option Bool) where
  abbrev read_bool : Option Bytes → Option Bool
  read_bool none = none
  read_bool (some text) = to_bool text

  abbrev or_false : Option Bool → Bool
  or_false none = false
  or_false (some b) = b

  -- `entry.get<bool>("default", false)`
  unfoldable pub default_access : Entry → Bool
  default_access entry = or_false (read_bool (lookup (codes "default") entry))

  abbrev pub is_setting : Bytes → Bool
  is_setting name = (name == codes "pk") || (name == codes "default")

  unfoldable pub process_commands :
      Bytes → Bool → Entry → RemoteControlSecurity → Result RemoteControlSecurity
  process_commands pk granted [] s = ok s
  process_commands pk granted ((name, text) ∷ children) s =
      let skip = process_commands pk granted children s in
      if is_setting name
      then skip
      else enforce (to_bool text) runtime_error >>= λ allowed.
          process_commands pk granted children (
            if differ granted allowed then set_commands pk (commands_of pk s ++ name ∷ []) s else s)

  -- The message of the log is what makes sure that the key has a list.
  unfoldable pub process_security_entry :
      Entry → RemoteControlSecurity → Result RemoteControlSecurity
  unfolding default_access process_commands
  process_security_entry entry s = enforce (lookup (codes "pk") entry) runtime_error >>= λ pk.
      process_commands pk (default_access entry) entry
        (record s { default_permissions = insert pk (default_access entry) s.default_permissions })
      >>= λ after. ok (set_commands pk (commands_of pk after) after)

  unfoldable pub process_entries :
      List (Bytes × Entry) → RemoteControlSecurity → Result RemoteControlSecurity
  unfolding process_security_entry
  process_entries [] s = ok s
  process_entries ((name, entry) ∷ entries) s =
      guard (name == codes "map") aborted
      >> (process_security_entry entry s >>= λ after. process_entries entries after)

  unfoldable pub process_config : Option (List (Bytes × Entry)) → Result RemoteControlSecurity
  unfolding process_entries
  process_config none = ok (record unconfigured { unrestricted = true })
  process_config (some entries) = process_entries entries unconfigured

-- A handler gets the frames behind the command, and tells whether they were well formed.
module _ (W : Type 0) where
  abbrev pub Handler : Type 0
  Handler = List Bytes → W → Bool × List Bytes × W

  abbrev pub handled : Bytes → List Bytes → Bool × List Bytes × W → Result (List Bytes × W)
  handled frame1 rep (true, frames, w) = ok (rep ++ frames, w)
  handled frame1 rep (false, [], w) =
      ok (rep ++ codes "KO" ∷ (codes "Malformed message: " ++ frame1) ∷ [], w)
  handled frame1 rep (false, f ∷ frames, w) = err aborted

  -- The message is the identity of the client, the command and its arguments.
  abbrev pub dispatch :
      RemoteControlSecurity
      → Bytes
      → Bytes
      → Bytes
      → List Bytes
      → Option Handler
      → W
      → Result (List Bytes × W)
  dispatch s user_pubkey identity frame1 args none w =
      ok (identity ∷ codes "KO" ∷ codes "UNKOWN MESSAGE" ∷ [], w)
  dispatch s user_pubkey identity frame1 args (some h) w =
      if allow_request user_pubkey frame1 s
      then handled frame1 (identity ∷ []) (h args w)
      else ok (identity ∷ codes "KO" ∷ codes "Insuficient permission" ∷ [], w)

  unfoldable pub handle_msg :
      List (Bytes × Handler)
      → RemoteControlSecurity
      → Bytes
      → List Bytes
      → W
      → Result (List Bytes × W)
  unfolding allow_request
  handle_msg command_handlers s user_pubkey [] w = err aborted
  handle_msg command_handlers s user_pubkey (identity ∷ []) w = err aborted
  handle_msg command_handlers s user_pubkey (identity ∷ frame1 ∷ args) w =
      dispatch s user_pubkey identity frame1 args (lookup frame1 command_handlers) w
