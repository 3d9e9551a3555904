-- ===== src/PushRules/Flatten.antt =====
-- `flatten_impl` and `flatten_event` of lib/structs/pushrules.cpp.
pub mod Keys
use Prim.Native.Char.{Char, code}
use Prim.Native.String
use Prim.Native.String.{[], ◌∷◌}
use mathlib.Core.List.{List, filter_map}
use mtxclient.Shared.{ℕ, zero, suc, String, Option, none, some, if◌then◌else◌, ◌==◌, str_eq, insert}
use mtxclient.Libraries.Json.{JsonLibrary, View}
use mtxclient.PushRules.Types.{NonCompoundJsonValue}
use mtxclient.PushRules.Values.{PushJsonValue, Event, to_non_compound_json_value}

-- The lambda of `flatten_impl`: a backslash before each dot. The loop skips the dot that it moved.
unfoldable pub escape_key : String → String
escape_key [] = []
escape_key (c ∷ input) =
    let rest = escape_key input in if code c == b'.' then "\\" ∷ (c ∷ rest) else c ∷ rest

-- `current_path + "."`, or nothing at the root.
unfoldable pub prefix : String → String
prefix current_path = if str_eq current_path "" then "" else String.◌++◌ current_path "."

module _ (json : JsonLibrary) where
  open json use {Json, view}

  -- The loop over `value.items()`, with the recursive call as `visit`.
  unfoldable pub flatten_items :
      (Json → Event → String → Event) → String → List (String × Json) → Event → Event
  flatten_items visit before List.[] result = result
  flatten_items visit before (List.◌∷◌ (key, value) items) result =
      flatten_items visit before items (visit value result (String.◌++◌ before (escape_key key)))

  -- The first argument is 101 - `current_depth`: at 0 the code returns at once.
  unfoldable pub flatten_impl : ℕ → Json → Event → String → Event
  flatten_impl zero value result current_path = result
  flatten_impl (suc levels) value result current_path = elim (view value) [
    | View.object items ↦ flatten_items (flatten_impl levels) (prefix current_path) items (
        if str_eq current_path "content.m\\.mentions"
        then insert current_path PushJsonValue.nullptr result
        else result)
    | View.array items ↦
        insert current_path
          (PushJsonValue.vector (filter_map (to_non_compound_json_value json) items)) result
    | View.string s ↦ insert current_path (PushJsonValue.string s) result
    | View.null ↦ insert current_path PushJsonValue.nullptr result
    | View.boolean b ↦ insert current_path (PushJsonValue.boolean b) result
    | View.number n ↦ insert current_path (PushJsonValue.int64 n) result
    | View.other ↦ result
  ]

  unfoldable pub flatten_event : Json → Event
  unfolding flatten_items flatten_impl prefix escape_key
  flatten_event j = flatten_impl 101 j List.[] ""
