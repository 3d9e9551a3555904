-- ===== src/PowerLevels/Levels.antt =====
-- The levels of users, and what a stored level changes.
use mtxclient.Shared.{
  ◌<◌, ◌^◌, String, ◌≡◌, refl, Bool, Bool-cases, inl, inr, [], ◌∷◌, true, false, ◌&&◌, ◌||◌, arith,
  any, str_eq, if◌then◌else◌, lookup, insert, lookup-insert, ℤ, pos, negsuc, lt_ℤ, Map, All,
}
use mtxclient.PowerLevels.{
  PowerLevels, Create, creator, room_version_creators_with_infinite_power, user_level,
  notification_level, or_default,
}

-- The sender of the create event and the users it names besides.
abbrev created : Create → String → Bool
created create user_id =
    str_eq create.sender user_id || any (λ c. str_eq c user_id) create.additional_creators

abbrev promote : PowerLevels → String → ℤ → PowerLevels
promote levels user_id level = record levels { users = insert user_id level levels.users }

-- Storing a level for a user gives exactly that user the level, unless the room version gives its
-- creators infinite power and the user is one of them; every other user keeps the level from before.
user_level-promote :
    (levels : PowerLevels) (create : Create) (user_id other : String) (level : ℤ)
    → user_level (promote levels user_id level) other create ≡ (
        if room_version_creators_with_infinite_power create && created create other
        then creator
        else if str_eq user_id other
        then level
        else user_level levels other create)
unfolding user_level
user_level-promote levels create user_id other level =
    ground (arith, lookup-insert user_id other level levels.users)

-- The values of an `int64_t`.
abbrev pub IsInt64 : ℤ → Type 0
IsInt64 (pos n) = n < 2 ^ 63
IsInt64 (negsuc n) = n < 2 ^ 63

abbrev pub AreInt64 : Map ℤ → Type 0
AreInt64 = All (λ e. IsInt64 e.1)

not-lt-creator : (level : ℤ) → IsInt64 level → lt_ℤ creator level ≡ false
not-lt-creator (pos n) h = ground arith
not-lt-creator (negsuc n) h = refl

stored-IsInt64 :
    (key : String) (m : Map ℤ) (d : ℤ)
    → IsInt64 d
    → AreInt64 m
    → IsInt64 (or_default (lookup key m) d)
unfolding lookup or_default
stored-IsInt64 key [] d p h = p
stored-IsInt64 key ((j, v) ∷ m) d p (q, h) = elim (Bool-cases (str_eq j key)) [
  | inl same ↦ rw same q
  | inr other ↦ rw other (stored-IsInt64 key m d p h)
]

notification_level-IsInt64 :
    (levels : PowerLevels) (key : String)
    → AreInt64 levels.notifications
    → IsInt64 (notification_level levels key)
unfolding notification_level
notification_level-IsInt64 levels key h = elim (Bool-cases (str_eq key "room")) [
  | inl room ↦ rw room (stored-IsInt64 key levels.notifications (pos 50) (omega arith) h)
  | inr other ↦ rw other (stored-IsInt64 key levels.notifications (pos 50) (omega arith) h)
]

user_level-creator :
    (levels : PowerLevels) (create : Create) (user_id : String)
    → room_version_creators_with_infinite_power create ≡ true
    → created create user_id ≡ true
    → user_level levels user_id create ≡ creator
unfolding user_level
user_level-creator levels create user_id infinite is_creator = ground arith

-- Where the room version gives its creators infinite power, no stored notification level is above a
-- creator's level.
creator_passes :
    (levels : PowerLevels) (create : Create) (user_id key : String)
    → room_version_creators_with_infinite_power create ≡ true
    → created create user_id ≡ true
    → AreInt64 levels.notifications
    → lt_ℤ (user_level levels user_id create) (notification_level levels key) ≡ false
creator_passes levels create user_id key infinite is_creator h =
    rw (user_level-creator levels create user_id infinite is_creator)
      (not-lt-creator _ (notification_level-IsInt64 levels key h))
