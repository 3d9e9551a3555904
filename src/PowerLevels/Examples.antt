-- ===== src/PowerLevels/Examples.antt =====
-- The levels in a room of version 12 with two creators.
use mtxclient.Shared.{◌≡◌, refl, [], ◌∷◌, lookup, pos, utf8_length}
use mtxclient.PowerLevels.{
  PowerLevels, Create, creator, default_levels, room_version_creators_with_infinite_power,
  user_level,
}

abbrev room : Create
room = record {
  sender = "@alice:example.org";
  room_version = "12";
  additional_creators = "@bob:example.org" ∷ [];
}

abbrev levels : PowerLevels
levels = record default_levels { notifications = ("room", pos 100) ∷ [] }

old_rooms :
    (user_level levels "@bob:example.org" (record room { room_version = "9" }) ≡ pos 0)
    × (user_level levels "@bob:example.org" (record room { room_version = "11" }) ≡ pos 0)
    × (user_level levels "@bob:example.org" room ≡ creator)
unfolding user_level room_version_creators_with_infinite_power lookup utf8_length
old_rooms = (refl, refl, refl)
