-- ===== src/Identifiers/Examples.antt =====
-- The theorems on identifiers at a user and a room without a host name.
use mtxclient.Shared.{◌≡◌, ◌≢◌, refl, some, none, [], codes}
use mtxclient.Identifiers.{Identifier, parse, split_at, find_first_of, user_sigil, room_sigil}
use mtxclient.Identifiers.Parts.{parse-parts, parse-IsMadeOf, IsMadeOf}

parse-parts_example :
    parse user_sigil (codes "@alice:example.org")
    ≡ some (record {
      localpart = codes "alice";
      hostname = codes "example.org";
      id = codes "@alice:example.org";
    })
parse-parts_example = parse-parts user_sigil (codes "alice") (codes "example.org") refl refl

abbrev room : Identifier
room = record { localpart = codes "abc"; hostname = []; id = codes "!abc" }

room_parses : parse room_sigil (codes "!abc") ≡ some room
unfolding parse split_at find_first_of
room_parses = refl

text_ne_nil : codes "!abc" ≢ []
text_ne_nil e = cc

parse-IsMadeOf_example : IsMadeOf room_sigil (codes "!abc") room
parse-IsMadeOf_example = parse-IsMadeOf room_sigil (codes "!abc") room refl text_ne_nil room_parses

no_host : parse user_sigil (codes "@alice") ≡ none
unfolding parse split_at find_first_of
no_host = refl
