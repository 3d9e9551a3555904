-- ===== src/Utils/Examples.antt =====
-- The theorems on URLs at small texts.
use mtxclient.Shared.{ℕ, ◌≡◌, refl, arith, List, [], ◌∷◌, ◌++◌, codes, AreBytes}
use mtxclient.Utils.{is_kept, url_encode, query_params, more_params, parse_mxc_url}
use mtxclient.Utils.Urls.{percent_decode, percent_decode-url_encode}
use mtxclient.Utils.Media.{parse_mxc_url-parts}

abbrev value : List ℕ
value = codes "a b" ++ 255 ∷ []

value-AreBytes : AreBytes value
value-AreBytes = (omega arith, (omega arith, (omega arith, (omega arith, tt))))

percent_decode-url_encode_example : percent_decode (url_encode value) ≡ value
percent_decode-url_encode_example = percent_decode-url_encode value value-AreBytes

parse_mxc_url-parts_example :
    (parse_mxc_url (codes "mxc://example.org/abc")
      ≡ record { server = codes "example.org"; media_id = codes "abc" })
    × (parse_mxc_url (codes "mxc://example.org/abc/d")
        ≡ record { server = codes "example.org"; media_id = [] })
parse_mxc_url-parts_example =
    parse_mxc_url-parts (codes "example.org") (codes "abc") (codes "d") refl refl refl

query :
    query_params ((codes "from", codes "x/1") ∷ ((codes "dir", codes "b") ∷ []))
    ≡ codes "from=x%2F1&dir=b"
unfolding query_params more_params url_encode is_kept
query = refl
