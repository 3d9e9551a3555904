-- ===== src/Http/Server.antt =====
-- `Client::set_server`: a server's name, URL and port are read.
pub mod Names
use mtxclient.Shared.{
  ℕ, suc, ◌+◌, ◌-◌, ◌*◌, ◌^◌, ◌%◌, Bool, true, false, List, [], ◌∷◌, Option, none, some, foldl, ltb,
  ◌==◌, if◌then◌else◌, codes, take, length, bytes_eq,
}
use mtxclient.Identifiers.{find_first_of, skip}
use mtxclient.Utils.{is_number}
use mtxclient.Http.{Client}

-- `substr(0, n) == prefix`, where `n` is the length of the prefix
abbrev pub starts_with : List ℕ → List ℕ → Bool
starts_with prefix s = bytes_eq (take (length prefix) s) prefix

-- `remove_suffix(1)` under the test for a slash at the end
unfoldable pub drop_slash : List ℕ → List ℕ
drop_slash [] = []
drop_slash (c ∷ []) = if c == b'/' then [] else c ∷ []
drop_slash (c ∷ (d ∷ s)) = c ∷ drop_slash (d ∷ s)

-- `std::count`
unfoldable pub count : ℕ → List ℕ → ℕ
count b [] = 0
count b (c ∷ s) = if c == b then suc (count b s) else count b s

-- The number that a list of digits stands for.
unfoldable pub value_from : ℕ → List ℕ → ℕ
value_from n [] = n
value_from n (d ∷ s) = value_from (n * 10 + (d - 48)) s

-- `std::stoul` of a text of digits; `none` where it throws `out_of_range`.
unfoldable pub stoul : List ℕ → Option ℕ
stoul s = if ltb (value_from 0 s) (2 ^ 64) then some (value_from 0 s) else none

-- The scheme that the name begins with: the protocol and its port, and what is behind it.
pub record Scheme : Type 0 where
  pub protocol : List ℕ
  pub port : ℕ
  pub name : List ℕ

unfoldable pub read_scheme : List ℕ → Scheme
read_scheme server =
    let name = if starts_with (codes "https://") server then skip 8 server else server in
    if starts_with (codes "http://") name
    then record { protocol = codes "http"; port = 80; name = skip 7 name }
    else record { protocol = codes "https"; port = 443; name = name }

-- The end of `set_server`, where no port was read.
abbrev pub without_port : Client → Scheme → Client × Bool
without_port c s = (record c { protocol = s.protocol; server = s.name; port = s.port }, true)

-- The number behind the colon; where `stoul` throws, the server is set and the port is not.
unfoldable pub with_port : Client → Scheme → List ℕ → Option ℕ → Client × Bool
with_port c s host (some n) =
    (record c { protocol = s.protocol; server = host; port = n % 2 ^ 16 }, true)
with_port c s host none = (record c { protocol = s.protocol; server = host }, false)

-- The name without its slash, and where its colon is.
unfoldable pub read_name : Client → Scheme → Option ℕ → Client × Bool
read_name c s none = without_port c s
read_name c s (some colon_offset) =
    if count b':' s.name == 1
    then (let tmp = skip (suc colon_offset) s.name in
        if is_number tmp
        then with_port c s (take colon_offset s.name) (stoul tmp)
        else without_port c s)
    else without_port c s

-- The client afterwards, and whether the call returned: it does not where the number is out of range.
unfoldable pub set_server : List ℕ → Client → Client × Bool
set_server server c =
    let s = read_scheme server in
    let name = drop_slash s.name in read_name c (record s { name = name }) (find_first_of b':' name)

-- A client before its constructor has run.
abbrev pub blank : Client
blank = record {
  protocol = [];
  server = [];
  access_token = [];
  user_id = record { localpart = []; hostname = []; id = [] };
  device_id = [];
  next_batch_token = [];
  port = 443;
}

-- The constructor: the port that it is given replaces the one that the server's name has.
unfoldable pub make_client : List ℕ → ℕ → Client × Bool
make_client server port =
    let (c, returned) = set_server server blank in
    if returned then (record c { port = port }, true) else (c, false)
