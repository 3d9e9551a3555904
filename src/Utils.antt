-- ===== src/Utils.antt =====
-- lib/utils.cpp: URLs and numbers. A string is a list of bytes.
pub mod Urls
pub mod Media
mod Examples
use mtxclient.Shared.{
  ℕ, ◌+◌, ◌/◌, ◌%◌, Bool, true, false, not, ◌&&◌, ◌||◌, List, [], ◌∷◌, ◌++◌, all, ltb, leb, ◌==◌,
  if◌then◌else◌, codes,
}

-- `std::isdigit` and `std::isalnum`, in the C locale. A byte above 127 is neither.
abbrev pub is_digit : ℕ → Bool
is_digit c = leb b'0' c && leb c b'9'

abbrev pub is_alnum : ℕ → Bool
is_alnum c = is_digit c || (leb b'A' c && leb c b'Z') || (leb b'a' c && leb c b'z')

-- The characters that `url_encode` keeps.
unfoldable pub is_kept : ℕ → Bool
is_kept c = is_alnum c || c == b'-' || c == b'_' || c == b'.' || c == b'~'

-- A digit that a stream writes at `std::hex` and `std::uppercase`.
abbrev pub hex_digit : ℕ → ℕ
hex_digit n = if ltb n 10 then n + 48 else n + 55

unfoldable pub url_encode : List ℕ → List ℕ
url_encode [] = []
url_encode (c ∷ value) =
    let escaped = url_encode value in
    if is_kept c then c ∷ escaped else b'%' ∷ (hex_digit (c / 16) ∷ (hex_digit (c % 16) ∷ escaped))

-- The loop of `query_params` over the pairs after the first.
unfoldable pub more_params : List (List ℕ × List ℕ) → List ℕ
more_params [] = []
more_params ((key, value) ∷ params) =
    b'&' ∷ (key ++ b'=' ∷ (url_encode value ++ more_params params))

unfoldable pub query_params : List (List ℕ × List ℕ) → List ℕ
query_params [] = []
query_params ((key, value) ∷ params) = key ++ b'=' ∷ (url_encode value ++ more_params params)

unfoldable pub is_number : List ℕ → Bool
is_number [] = false
is_number (c ∷ s) = all is_digit (c ∷ s)

pub record MxcUrl : Type 0 where
  pub server : List ℕ
  pub media_id : List ℕ

abbrev pub push_front : ℕ → List (List ℕ) → List (List ℕ)
push_front c [] = (c ∷ []) ∷ []
push_front c (part ∷ parts) = (c ∷ part) ∷ parts

-- The parts between the slashes.
unfoldable pub split_slashes : List ℕ → List (List ℕ)
split_slashes [] = [] ∷ []
split_slashes (c ∷ s) =
    let parts = split_slashes s in if c == b'/' then [] ∷ parts else push_front c parts

-- `url.find("mxc://") == 0`, with what is behind it.
abbrev pub mxc_uri_protocol : List ℕ
mxc_uri_protocol = codes "mxc://"

abbrev pub first_part : List (List ℕ) → List ℕ
first_part [] = []
first_part (part ∷ parts) = part

unfoldable pub from_parts : List (List ℕ) → MxcUrl
from_parts (server ∷ (media_id ∷ [])) = record { server = server; media_id = media_id }
from_parts parts = record { server = first_part parts; media_id = [] }

-- The text behind the prefix, or the result for a text that does not begin with it.
unfoldable pub behind : List ℕ → List ℕ → MxcUrl
behind [] str_left = from_parts (split_slashes str_left)
behind (p ∷ prefix) [] = record { server = []; media_id = [] }
behind (p ∷ prefix) (c ∷ url) =
    let rest = behind prefix url in if c == p then rest else record { server = []; media_id = [] }

unfoldable pub parse_mxc_url : List ℕ → MxcUrl
parse_mxc_url url = behind mxc_uri_protocol url
