-- ===== src/PowerLevels/Stored/Roundtrip.antt =====
-- Power levels that are written and read back decide the same.
use mtxclient.Shared.{
  ℤ, IsInt64, String, ◌≡◌, refl, ◌∙◌, true, false, none, some, [], ◌∷◌, Map, lookup, str_eq,
}
use mtxclient.Libraries.Json.{JsonLibrary, JsonWriter, JsonLaws}
use mtxclient.Json.Laws.{find-object}
use mtxclient.Json.Maps.{AreInt64, get_map-int_fields}
use mtxclient.PowerLevels.{
  PowerLevels, Create, user, moderator, event_level, state_level, notification_level, user_level,
}
use mtxclient.PowerLevels.Stored.{
  read_levels, write_levels, level_fields, middle_fields, late_fields, map_field, level_in, map_in,
}

-- Every level is an `int64_t`.
pub record FitInt64 (levels : PowerLevels) : Type 0 where
  pub ban_fits : IsInt64 levels.ban
  pub invite_fits : IsInt64 levels.invite
  pub kick_fits : IsInt64 levels.kick
  pub redact_fits : IsInt64 levels.redact
  pub events_default_fits : IsInt64 levels.events_default
  pub users_default_fits : IsInt64 levels.users_default
  pub state_default_fits : IsInt64 levels.state_default
  pub events_fit : AreInt64 levels.events
  pub users_fit : AreInt64 levels.users
  pub notifications_fit : AreInt64 levels.notifications

-- Two power levels by which a room decides the same.
pub record DecideSame (old new : PowerLevels) : Type 0 where
  pub same_ban : new.ban ≡ old.ban
  pub same_invite : new.invite ≡ old.invite
  pub same_kick : new.kick ≡ old.kick
  pub same_redact : new.redact ≡ old.redact
  pub same_events : (event_type : String) → event_level new event_type ≡ event_level old event_type
  pub same_states : (event_type : String) → state_level new event_type ≡ state_level old event_type
  pub same_notifications : (key : String) → notification_level new key ≡ notification_level old key
  pub same_users :
      (user_id : String) (create : Create)
      → user_level new user_id create ≡ user_level old user_id create

module _ (json : JsonLibrary) (writer : JsonWriter json) (laws : JsonLaws json writer) where
  lookup-map_field :
      (key asked : String) (m : Map ℤ) (rest : Map json.Json)
      → str_eq key asked ≡ false
      → lookup asked (map_field json writer key m rest) ≡ lookup asked rest
  unfolding lookup
  lookup-map_field key asked [] rest h = refl
  lookup-map_field key asked (e ∷ m) rest h = rw h refl

  -- A level whose field is there is read.
  level-read :
      (default level : ℤ) (key : String) (fields : Map json.Json)
      → IsInt64 level
      → lookup key fields ≡ some (writer.int level)
      → level_in json default key (writer.object fields) ≡ some level
  level-read default level key fields small there =
      rw (find-object json writer laws key fields, there) (laws.integer_int level small)

  -- A map is read from its field, or from the lack of one where it is empty.
  map-read :
      (key : String) (m : Map ℤ) (fields rest : Map json.Json)
      → AreInt64 m
      → lookup key fields ≡ lookup key (map_field json writer key m rest)
      → lookup key rest ≡ none
      → str_eq key key ≡ true
      → (entries : Map ℤ) × (map_in json key (writer.object fields) ≡ some entries)
        × ((asked : String) → lookup asked entries ≡ lookup asked m)
  unfolding lookup
  map-read key [] fields rest h there gone self =
      ([], rw (find-object json writer laws key fields, there, gone) refl, λ asked. refl)
  map-read key (e ∷ m) fields rest h there gone self =
      let (entries, returned, same) = get_map-int_fields json writer laws (e ∷ m) h in
      (entries, rw (find-object json writer laws key fields, there, self) returned, same)

  module _ (levels : PowerLevels) (h : FitInt64 levels) where
    ban-read : level_in json moderator "ban" (write_levels json writer levels) ≡ some levels.ban
    unfolding write_levels lookup
    ban-read =
        level-read moderator levels.ban "ban" (level_fields json writer levels) h.ban_fits refl

    invite-read :
        level_in json moderator "invite" (write_levels json writer levels) ≡ some levels.invite
    unfolding write_levels lookup
    invite-read =
        level-read moderator levels.invite "invite" (level_fields json writer levels) h.invite_fits
          refl

    kick-read : level_in json moderator "kick" (write_levels json writer levels) ≡ some levels.kick
    unfolding write_levels lookup
    kick-read =
        level-read moderator levels.kick "kick" (level_fields json writer levels) h.kick_fits refl

    redact-read :
        level_in json moderator "redact" (write_levels json writer levels) ≡ some levels.redact
    unfolding write_levels lookup
    redact-read =
        level-read moderator levels.redact "redact" (level_fields json writer levels) h.redact_fits
          refl

    -- The fields after those of the two maps.
    late-found :
        (key : String)
        → str_eq "ban" key ≡ false
        → str_eq "kick" key ≡ false
        → str_eq "invite" key ≡ false
        → str_eq "redact" key ≡ false
        → str_eq "events" key ≡ false
        → str_eq "users" key ≡ false
        → lookup key (level_fields json writer levels) ≡ lookup key (late_fields json writer levels)
    unfolding lookup
    late-found key b k i r e u =
        rw
          (
            b,
            k,
            i,
            r,
            lookup-map_field "events" key levels.events (middle_fields json writer levels) e,
            lookup-map_field "users" key levels.users (late_fields json writer levels) u,
          )
          refl

    events_default-read :
        level_in json user "events_default" (write_levels json writer levels)
        ≡ some levels.events_default
    unfolding write_levels lookup
    events_default-read =
        level-read user levels.events_default "events_default" (level_fields json writer levels)
          h.events_default_fits (late-found "events_default" refl refl refl refl refl refl)

    users_default-read :
        level_in json user "users_default" (write_levels json writer levels)
        ≡ some levels.users_default
    unfolding write_levels lookup
    users_default-read =
        level-read user levels.users_default "users_default" (level_fields json writer levels)
          h.users_default_fits (late-found "users_default" refl refl refl refl refl refl)

    state_default-read :
        level_in json moderator "state_default" (write_levels json writer levels)
        ≡ some levels.state_default
    unfolding write_levels lookup
    state_default-read =
        level-read moderator levels.state_default "state_default" (level_fields json writer levels)
          h.state_default_fits (late-found "state_default" refl refl refl refl refl refl)

    events-read :
        (entries : Map ℤ) × (map_in json "events" (write_levels json writer levels) ≡ some entries)
        × ((asked : String) → lookup asked entries ≡ lookup asked levels.events)
    unfolding write_levels lookup
    events-read =
        map-read "events" levels.events (level_fields json writer levels)
          (middle_fields json writer levels) h.events_fit refl
          (lookup-map_field "users" "events" levels.users (late_fields json writer levels) refl
            ∙ lookup-map_field "notifications" "events" levels.notifications [] refl)
          refl

    users-read :
        (entries : Map ℤ) × (map_in json "users" (write_levels json writer levels) ≡ some entries)
        × ((asked : String) → lookup asked entries ≡ lookup asked levels.users)
    unfolding write_levels lookup
    users-read =
        map-read "users" levels.users (level_fields json writer levels)
          (late_fields json writer levels) h.users_fit
          (lookup-map_field "events" "users" levels.events (middle_fields json writer levels) refl)
          (lookup-map_field "notifications" "users" levels.notifications [] refl) refl

    notifications-read :
        (entries : Map ℤ) × (map_in json "notifications" (write_levels json writer levels)
          ≡ some entries)
        × ((asked : String) → lookup asked entries ≡ lookup asked levels.notifications)
    unfolding write_levels lookup
    notifications-read =
        map-read "notifications" levels.notifications (level_fields json writer levels) []
          h.notifications_fit (late-found "notifications" refl refl refl refl refl refl) refl refl

    -- Power levels that fit into 64 bits, written and read back, decide the same: the levels to ban, invite,
    -- kick and redact, the level of each event type, state event and notification, and the level of
    -- every user under every creation event.
    pub read_levels-write_levels :
        (new : PowerLevels) × (read_levels json (write_levels json writer levels) ≡ some new)
        × DecideSame levels new
    unfolding read_levels event_level state_level notification_level user_level
    read_levels-write_levels =
        let (events, e, same_events) = events-read in
        let (users, u, same_users) = users-read in
        let (notifications, n, same_notifications) = notifications-read in
        (
          record levels { events = events; users = users; notifications = notifications },
          rw
              (
                ban-read, invite-read, kick-read, redact-read, e, u, events_default-read,
                users_default-read, state_default-read, n,
              )
              refl,
          record {
            same_ban = refl;
            same_invite = refl;
            same_kick = refl;
            same_redact = refl;
            same_events = λ event_type. rw (same_events event_type) refl;
            same_states = λ event_type. rw (same_events event_type) refl;
            same_notifications = λ key. rw (same_notifications key) refl;
            same_users = λ user_id create. rw (same_users user_id) refl;
          },
        )
