-- ===== src/Lib.antt =====
-- A model of mtxclient, the client library for Matrix, with the theorems on it.
--
-- The program. A client of Matrix keeps rooms, whose events are JSON objects. The library reads these
-- objects into structs (lib/structs), calls the server (lib/http), encrypts (lib/crypto) and decides
-- for each event whether to notify the user (lib/structs/pushrules.cpp). The push rules are the part
-- where the others meet: they read the flattened JSON of an event, the power levels of the room and
-- the relations of the event.
--
-- The files.
-- - Shared: tests on numbers, lists over the native numbers, texts, finite maps, 64-bit integers, and
--   chains of tests of a text (Ladder).
-- - Libraries: what the code uses of nlohmann::json (`JsonLibrary`, `JsonWriter`), RE2 (`Re2Library`) and OpenSSL
--   (`OpensslLibrary`), as records that the models take as arguments. Samples has small instances, for
--   the examples.
-- - Encoding: lib/crypto/encoding.cpp. Alphabet has the alphabets and their inverse tables, Base64 and
--   Base58 the loops of the encoders and decoders. A string of bytes is a list of numbers. `Decoder` is
--   the state of the base64 decoder. In Base58 the digits are a list with the lowest first, and the
--   assertion that there is room for a digit is `none`.
-- - Crypto: lib/crypto/utils.cpp, for secrets under a key (Secrets, with the structs of
--   include/mtx/secret_storage.hpp), for recovery keys (Recovery) and for encrypted files (Files, with
--   those of include/mtx/common.hpp). What the documentation of OpenSSL promises is `OpensslLaws`: for
--   keys that are not empty, an info of 1024 bytes at most, and sizes that an `int` holds. A size is cut
--   to an `int` as the code's casts do, and `undefined_behavior` stands where the cipher would read behind
--   a key or an iv, or where a failed call of it leaves its output length unset. A buffer of random bytes
--   is an argument.
-- - Utils: lib/utils.cpp, for `url_encode`, `query_params`, `parse_mxc_url` and `is_number`.
-- - Http: lib/http/client.cpp with its headers in include/mtxclient/http. The root has the state of the
--   client (`Client`), the arguments of `get`, `put`, `post` and `delete_` (`Call`) and the request that
--   coeurl is given for them (`send`). Every endpoint is a function of its name into the call that it
--   makes: Rooms, Membership, Users, Push, Directory, Keys, Media, Account, Requests (with
--   lib/structs/requests.cpp). Server is `set_server` and the constructor. Replies is
--   `prepare_callback`, Tasks the calls whose callbacks make other calls, as a tree over replies. Uia is
--   the `UIAHandler` with the requests that it repeats; its first, null authentication is the text `null`.
--   Session and History say which token the requests carry, Fallbacks which requests the tasks make (with Tasks/Runs),
--   Paths what a server reads in the paths. Params is the map of a query's parameters.
-- - Json: the functions of nlohmann::json that the readers of lib/structs use, with what is found in a
--   JSON value that was made.
-- - Relations: lib/structs/events/common.cpp with include/mtx/events/common.hpp, for the relations and
--   the mentions of an event. Parse has `parse_relations`, Write `to_json` and `add_relations`, Apply `apply_relations`, Mentions the
--   mentions. A content is a value of the parameter, and an assignment gives a new one.
-- - Identifiers: include/mtx/identifiers.hpp. `none` stands for the exception of `parse`, and the
--   identifier type is given by its sigil.
-- - PowerLevels: include/mtx/events/power_levels.hpp, include/mtx/events/create.hpp and the two files
--   of lib/structs/events with the same names. Levels has the lookups, Stored `from_json` and `to_json`.
-- - RoomCreate: the content of the creation event in these files, with its JSON. Levels has what it means
--   for the levels of the users.
-- - RoomAccess: join_rules, guest_access, history_visibility and server_acl of lib/structs/events and
--   include/mtx/events, with their JSON.
-- - Spaces: spaces of lib/structs/events and include/mtx/events, with their JSON.
-- - EventTypes: include/mtx/events/event_type.hpp and `getEventType`, `to_string` of
--   lib/structs/events.cpp. `none` stands for the exception at the empty text.
-- - Errors: `ErrorCode` of include/mtx/lightweight_error.hpp and lib/structs/errors.cpp.
-- - PushRules: include/mtx/pushrules.hpp and lib/structs/pushrules.cpp. Types has the structs, Values
--   the flattened values, Flatten `flatten_event`, Optimized the structs of `OptimizedRules` with
--   their `matches`, Build the constructor of `PushRuleEvaluator`, Evaluate its `evaluate`. Reference
--   says what a rule set means with nothing prepared, Stored has `from_json` and `to_json`. An exception is a value of `Outcome`.
--
-- Bounds and fuel. `missing_from` takes two rounds, since at most two bytes are missing to a group of
-- three. `flatten_impl` takes 101 levels, as the code returns at a depth above 100: the number of
-- levels is 101 - `current_depth`. The carry of the base58 encoder is written into the room that is
-- left, and `push_bytes` takes four rounds, which are enough for 32 bits. All other loops run along a
-- list. Products in the base64 decoder are cut to a byte with `% 256`, as `uint8_t` does; the 24 bits of
-- a group fit `uint32_t`. The carries of base58 are cut to 32 bits.
--
-- A map is a list of pairs in which the last insertion of a key decides. Levels are integers (ℤ); a
-- level that was read is in the range of `std::int64_t`.
--
-- coeurl is known by its replies alone, and coeurl's comparison of header names is an argument. The body
-- of a request is a tree (`Body`), in which the JSON that the caller's `to_json` makes is a leaf. Numbers
-- are written with twenty digits at most, which 64 bits need. A function that throws returns `none` or
-- a flag.
--
-- Not modelled: what the client passes on to coeurl (shutdown, certificates, the cache of services), and
-- the formatting of its errors; the olm client, which calls another library; the functions of
-- lib/crypto/utils.cpp over olm, its key files and its session backup; random tokens; the reading and
-- writing of JSON, but for relations, mentions, power levels, creation events, the access to a room,
-- spaces, push rules and some requests; the
-- readers of responses; logging; the vendored code, the examples and the tests of the repository.
pub mod Shared
pub mod Libraries
pub mod Samples
pub mod Encoding
pub mod Utils
pub mod Identifiers
pub mod Crypto
pub mod PowerLevels
pub mod RoomCreate
pub mod RoomAccess
pub mod Spaces
pub mod EventTypes
pub mod Errors
pub mod PushRules
pub mod Json
pub mod Relations
pub mod Http
