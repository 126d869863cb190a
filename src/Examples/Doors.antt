-- ===== src/Examples/Doors.antt =====
-- One card, its owner, and a mapping that opens one door on Tuesday mornings.
use access_control.Prelude.{
  ◌≡◌, ◌≢◌, ◌↔◌, refl, true, [], ◌∷◌, pos, Result, ok, Option, none, some, codes, Memᴰ, Bytes,
}
use access_control.Schedule.{Tm, TimePoint, Schedule}
use access_control.Access.Validity.{
  new_validity, time_point_min, time_point_max, set_start_date, set_end_date, is_valid,
}
use access_control.Access.Profile.{Profile}
use access_control.Access.Profile.Coverage.{WellKeyed}
use access_control.Access.Mapper.{
  User, Credential, rfid_card, ScheduleMapping, Mapper, build_profile, owner_is_valid,
}
use access_control.Access.Mapper.Decision.{AllLive, opens, runs}
use access_control.Access.Mapper.Grant.{concerns, granted, build_profile_decision}
use access_control.Access.Source.{Message, text, number, source, simple_wiegand}
use access_control.Access.Instance.{AuthFileInstance, handle_bus_msg}
use access_control.Access.Instance.Answer.{IsAnswer, handle_bus_msg-IsAnswer}

abbrev clock : TimePoint → Tm
clock tp = record { tm_wday = pos 2; tm_hour = pos 9; tm_min = pos 30 }

abbrev mornings : Schedule
mornings = record {
  id = 1;
  name = codes "mornings";
  description = [];
  timeframes =
      record {
        day = pos 2;
        start_hour = pos 8;
        start_min = pos 0;
        end_hour = pos 12;
        end_min = pos 0;
      }
      ∷ [];
}

start_unset : set_start_date (λ s. none) new_validity [] ≡ ok new_validity
unfolding set_start_date new_validity
start_unset = refl

end_unset : set_end_date (λ s. none) new_validity [] ≡ ok new_validity
unfolding set_end_date new_validity
end_unset = refl

abbrev ada : User
ada = record {
  id = 7;
  username = codes "ada";
  firstname = [];
  lastname = [];
  email = [];
  validity = record { start = time_point_min; end = time_point_max; enabled = true };
}

abbrev badge : Credential
badge = record {
  token = rfid_card (codes "80:81:01:80") (pos 26);
  id = 3;
  owner = some ada;
  alias = codes "badge";
  validity = record { start = time_point_min; end = time_point_max; enabled = true };
}

abbrev front_door : ScheduleMapping
front_door = record {
  schedule = some mornings;
  users = 7 ∷ [];
  groups = [];
  creds = [];
  doors = some (codes "front") ∷ [];
  zones = [];
}

abbrev house : Mapper
house = record {
  users = (codes "ada", ada) ∷ [];
  groups = [];
  rfid_cards = (codes "80:81:01:80", badge) ∷ [];
  pin_codes = [];
  rfid_cards_pin = [];
  id_to_cred = [];
  xml_schedules = [];
  mappings = front_door ∷ [];
}

house_live : AllLive house.mappings
house_live = (((mornings, refl), tt, tt), tt)

abbrev first_profile : Profile
first_profile = record { schedules = (codes "front", mornings ∷ []) ∷ []; default_schedule = [] }

abbrev second_profile : Profile
second_profile = record { schedules = []; default_schedule = mornings ∷ [] }

first_keyed : WellKeyed first_profile
first_keyed = (refl, tt)

build_profile_decision_example :
    (r : Option Profile) × (build_profile house (pos 0) badge ≡ ok r)
    × ((target : Option Bytes)
        → (granted clock (pos 0) r target ≡ true) ↔ (
            (is_valid badge.validity (pos 0) ≡ true)
            × (owner_is_valid badge.owner (pos 0) ≡ true)
            × ((m : ScheduleMapping) × Memᴰ m house.mappings
                × (concerns house badge m ≡ true)
                × (runs clock (pos 0) m.schedule ≡ true)
                × (opens m target ≡ true))))
build_profile_decision_example = build_profile_decision clock (pos 0) house badge house_live

abbrev lock : AuthFileInstance
lock = record { mapper = house; name = codes "front_auth"; target_name = codes "front" }

abbrev swipe : Message
swipe = source simple_wiegand ∷ text (codes "80:81:01:80") ∷ number (pos 26) ∷ []

abbrev printed_log : Credential → Result Bytes
printed_log c = ok []

reader_topic : codes "S_reader" ≢ codes "KERNEL"
reader_topic = λ e. cc

handle_bus_msg-IsAnswer_example :
    IsAnswer clock printed_log none lock
      (pos 0)
      (text (codes "S_reader") ∷ swipe)
      (handle_bus_msg clock printed_log none lock (pos 0) (text (codes "S_reader") ∷ swipe))
handle_bus_msg-IsAnswer_example =
    handle_bus_msg-IsAnswer clock printed_log none lock (pos 0) (codes "S_reader") swipe
      reader_topic house_live
