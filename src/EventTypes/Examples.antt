-- ===== src/EventTypes/Examples.antt =====
-- The theorems on event types at the names of two events.
use mtxclient.Shared.{◌≡◌, ◌≢◌, ◌↔◌, some, refl}
use mtxclient.EventTypes.{get_event_type, to_string, room_message, unsupported}
use mtxclient.EventTypes.Names.{get_event_type_iff}

supported : room_message ≢ unsupported
supported e = cc

get_event_type_iff_example :
    (get_event_type "m.room.message" ≡ some room_message)
    ↔ ("m.room.message" ≡ to_string room_message)
get_event_type_iff_example = get_event_type_iff "m.room.message" room_message supported

unknown : get_event_type "m.unknown" ≡ some unsupported
unfolding get_event_type
unknown = refl
