-- ===== src/PowerLevels.antt =====
-- include/mtx/events/power_levels.hpp, lib/structs/events/power_levels.cpp and the test of the room
-- version in lib/structs/events/create.cpp: who has which power level in a room.
pub mod Levels
pub mod Stored
mod Examples
use mtxclient.Shared.{
  ℕ, ◌-◌, ◌^◌, String, Bool, true, false, not, ◌&&◌, Option, none, some, List, [], any, ltb, str_eq,
  utf8_length, if◌then◌else◌, Map, lookup, ℤ, pos,
}

abbrev pub user : ℤ
user = pos 0

abbrev pub moderator : ℤ
moderator = pos 50

-- `std::numeric_limits<int64_t>::max()`
abbrev pub creator : ℤ
creator = pos (2 ^ 63 - 1)

-- The parts of `StateEvent<Create>` that are read here.
pub record Create : Type 0 where
  pub sender : String
  pub room_version : String
  pub additional_creators : List String

pub record PowerLevels : Type 0 where
  pub ban : ℤ
  pub invite : ℤ
  pub kick : ℤ
  pub redact : ℤ
  pub events_default : ℤ
  pub users_default : ℤ
  pub state_default : ℤ
  pub events : Map ℤ
  pub users : Map ℤ
  pub notifications : Map ℤ

abbrev pub default_levels : PowerLevels
default_levels = record {
  ban = moderator;
  invite = moderator;
  kick = moderator;
  redact = moderator;
  events_default = user;
  users_default = user;
  state_default = moderator;
  events = [];
  users = [];
  notifications = [];
}

-- `std::map::find(key)`, else the default.
or_default : Option ℤ → ℤ → ℤ
or_default none level = level
or_default (some level) _ = level

unfoldable pub event_level : PowerLevels → String → ℤ
unfolding or_default
event_level levels event_type = or_default (lookup event_type levels.events) levels.events_default

unfoldable pub state_level : PowerLevels → String → ℤ
unfolding or_default
state_level levels event_type = or_default (lookup event_type levels.events) levels.state_default

unfoldable pub notification_level : PowerLevels → String → ℤ
unfolding or_default
notification_level levels notification_key =
    or_default (lookup notification_key levels.notifications)
      (if str_eq notification_key "room" then pos 50 else pos 50)

-- `room_version.length() > 1 && room_version != "10" && room_version != "11"`
unfoldable pub room_version_creators_with_infinite_power : Create → Bool
room_version_creators_with_infinite_power create =
    ltb 1 (utf8_length create.room_version)
    && not (str_eq create.room_version "10")
    && not (str_eq create.room_version "11")

unfoldable pub user_level : PowerLevels → String → Create → ℤ
unfolding or_default
user_level levels user_id create =
    let stored = or_default (lookup user_id levels.users) levels.users_default in
    if room_version_creators_with_infinite_power create
    then (if str_eq create.sender user_id
        then creator
        else if any (λ c. str_eq c user_id) create.additional_creators
        then creator
        else stored)
    else stored
