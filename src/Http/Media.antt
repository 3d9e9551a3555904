-- ===== src/Http/Media.antt =====
-- lib/http/client.cpp: uploads, downloads, thumbnails and previews, with the calls they fall back to.
pub mod Filenames
use mtxclient.Shared.{
  ℕ, zero, suc, ◌+◌, ◌-◌, ℤ, Bool, true, false, not, ◌&&◌, ◌||◌, List, [], ◌∷◌, ◌+++◌, Option, none,
  some, ◌==◌, if◌then◌else◌, codes, take, length,
}
use mtxclient.Identifiers.{find_first_of, skip}
use mtxclient.Utils.{url_encode, query_params, parse_mxc_url}
use mtxclient.Http.Params.{emplace}
use mtxclient.Http.Tasks.{Task, done, ask, Reply}
use mtxclient.Http.Replies.{Reader, ClientError, Answer, prepare_callback, text_reader}
use mtxclient.Http.Directory.{is_missing}
use mtxclient.Http.Server.{starts_with}
use mtxclient.Http.{Call, payload, decimal, signed_decimal, get_call, post_call}

unfoldable pub upload : List ℕ → List ℕ → List ℕ → Call
upload bytes content_type filename =
    record (post_call
      (codes "/media/v3/upload?" +++ query_params ((codes "filename", filename) ∷ []))
      (payload bytes)) { content_type = content_type }

-- `find` of a text, with what begins there
unfoldable pub find_text : List ℕ → List ℕ → Option (List ℕ)
find_text text [] = none
find_text text (c ∷ s) = if starts_with text (c ∷ s) then some (c ∷ s) else find_text text s

-- `substr(start + 1, end - start - 2)` of what is behind the quote at `start`, where `end` is the next
-- quote: one byte less than there are before it. Without a next quote it is the rest, since `npos` less
-- `start` and 2 is more than there is; and where the quotes touch, the length wraps around to the rest too.
unfoldable pub quoted : List ℕ → Option ℕ → List ℕ
quoted behind none = behind
quoted behind (some zero) = behind
quoted behind (some (suc n)) = take n behind

-- The name behind the first equals sign of the whole header.
unfoldable pub after_equals : List ℕ → Option ℕ → List ℕ
after_equals value none = []
after_equals value (some start) = skip (suc start) value

-- What `filename` begins, and the quote in it.
unfoldable pub filename_at : List ℕ → List ℕ → Option ℕ → List ℕ
filename_at value found none = after_equals value (find_first_of b'=' value)
filename_at value found (some start) =
    let behind = skip (suc start) found in quoted behind (find_first_of b'"' behind)

unfoldable pub filename_in : List ℕ → Option (List ℕ) → List ℕ
filename_in value none = []
filename_in value (some found) = filename_at value found (find_first_of b'"' found)

-- The original filename that a `Content-Disposition` names.
unfoldable pub original_filename : List ℕ → List ℕ
original_filename value = filename_in value (find_text (codes "filename") value)

pub record Download {κ} (E : Type κ) : Type κ where
  pub res : List ℕ
  pub content_type : List ℕ
  pub original_filename : List ℕ
  pub err : Option (ClientError E)

pub record ThumbOpts : Type 0 where
  pub width : ℕ
  pub height : ℕ
  pub method : List ℕ
  pub mxc_url : List ℕ

-- The parameters of `get_thumbnail`, put in one after the other.
unfoldable pub thumbnail_params : ThumbOpts → List (List ℕ × List ℕ)
thumbnail_params opts =
    let params = emplace (codes "width") (decimal opts.width) [] in
    let params = emplace (codes "height") (decimal opts.height) params in
    emplace (codes "method") opts.method params

-- The parameters of `preview_url`.
unfoldable pub preview_params : Option ℤ → List ℕ → List (List ℕ × List ℕ)
preview_params none url = (codes "url", url) ∷ []
preview_params (some timestamp) url =
    emplace (codes "url") url ((codes "ts", signed_decimal timestamp) ∷ [])

-- The names of headers are compared by coeurl.
module _ {κ} {E : Type κ} (same_name : List ℕ → List ℕ → Bool) (errors : Reader E) where
  -- A header, or the empty text where it is missing.
  unfoldable pub header_at : List ℕ → List (List ℕ × List ℕ) → List ℕ
  header_at name [] = []
  header_at name ((key, value) ∷ headers) =
      if same_name key name then value else header_at name headers

  -- The `cb` of `download`.
  unfoldable pub downloaded : Answer (List ℕ) E → Download E
  downloaded a = record {
    res = a.response;
    content_type = header_at (codes "Content-Type") a.headers;
    original_filename = original_filename (header_at (codes "Content-Disposition") a.headers);
    err = a.error;
  }

  unfoldable pub download : List ℕ → List ℕ → Task (Download E)
  download server media_id =
      let path = url_encode server +++ codes "/" +++ url_encode media_id in
      ask (record (get_call (codes "/client/v1/media/download/" +++ path)) { num_redirects = 3 })
        λ r.
          let a = prepare_callback text_reader errors r in
          if not (is_missing a.error)
          then done (downloaded a)
          else (ask (get_call (codes "/media/v3/download/" +++ path))
              λ r. done (downloaded (prepare_callback text_reader errors r)))

  -- `download` of a content URI
  unfoldable pub download_mxc : List ℕ → Task (Download E)
  download_mxc mxc_url = let url = parse_mxc_url mxc_url in download url.server url.media_id

  -- What a callback of the text and the error sees of a download.
  unfoldable pub text_of : Task (Download E) → Task (List ℕ × Option (ClientError E))
  text_of (done d) = done (d.res, d.err)
  text_of (ask call k) = ask call λ r. text_of (k r)

  -- `err && try_download && err->status_code == 404`
  unfoldable pub is_download : Bool → Option (ClientError E) → Bool
  is_download try_download none = false
  is_download try_download (some err) = try_download && err.status_code == 404

  unfoldable pub get_thumbnail : ThumbOpts → Bool → Task (List ℕ × Option (ClientError E))
  get_thumbnail opts try_download =
      let mxc = parse_mxc_url opts.mxc_url in
      let path =
        mxc.server
        +++ codes "/"
        +++ mxc.media_id
        +++ codes "?"
        +++ query_params (thumbnail_params opts) in
      ask (get_call (codes "/client/v1/media/thumbnail/" +++ path)) λ r.
        let a = prepare_callback text_reader errors r in
        if not (is_missing a.error)
        then done (a.response, a.error)
        else if is_download try_download a.error
        then text_of (download mxc.server mxc.media_id)
        else (ask (get_call (codes "/media/v3/thumbnail/" +++ path)) λ r.
            let a = prepare_callback text_reader errors r in
            if is_download try_download a.error
            then text_of (download mxc.server mxc.media_id)
            else done (a.response, a.error))

  unfoldable pub preview_url {ℓ} :
      {T : Type ℓ} → Reader T → Option ℤ → List ℕ → Task (T × Option (ClientError E))
  preview_url previews timestamp url =
      let query = query_params (preview_params timestamp url) in
      ask (get_call (codes "/client/v1/media/preview_url?" +++ query)) λ r.
        let a = prepare_callback previews errors r in
        if not (is_missing a.error)
        then done (a.response, a.error)
        else (ask (get_call (codes "/media/v3/preview_url?" +++ query))
            λ r. let a = prepare_callback previews errors r in done (a.response, a.error))
