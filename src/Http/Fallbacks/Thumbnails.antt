-- ===== src/Http/Fallbacks/Thumbnails.antt =====
-- Which requests a thumbnail makes, and what its callback is given.
use mtxclient.Shared.{
  ℕ, ◌≡◌, ◌↔◌, ◌⊎◌, inl, inr, refl, ap, Bool, true, Option, List, [], ◌∷◌, ◌+++◌, codes, arith,
}
use mtxclient.Utils.{parse_mxc_url, query_params}
use mtxclient.Http.Tasks.{Task, done, ask, Reply}
use mtxclient.Http.Tasks.Runs.{
  requests, result, rest, IsMissing, IsNotFound, IsMissing-cases, iff_cases,
}
use mtxclient.Http.Replies.{
  Reader, ClientError, prepare_callback, text_reader, read_error, read_response,
}
use mtxclient.Http.Replies.Results.{Sum-cases}
use mtxclient.Http.Media.{
  Download, ThumbOpts, download, text_of, get_thumbnail, thumbnail_params, is_download,
}

module _ {κ} {E : Type κ} (same_name : List ℕ → List ℕ → Bool) (errors : Reader E) where
  -- What the callback is given of a reply.
  abbrev pub thumbnail_of : Reply → List ℕ × Option (ClientError E)
  thumbnail_of r = let a = prepare_callback text_reader errors r in (a.response, a.error)

  -- What it is given of a download.
  abbrev pub text_and_error : Download E → List ℕ × Option (ClientError E)
  text_and_error d = (d.res, d.err)

  -- The requests of a thumbnail, with those of a download where the thumbnail is not found, and what the callback
  -- is given.
  abbrev pub ThumbnailRequests : (ℕ → Reply) → ThumbOpts → Bool → Type κ
  ThumbnailRequests replies opts try_download =
      let mxc = parse_mxc_url opts.mxc_url in
      let path =
        mxc.server
        +++ codes "/"
        +++ mxc.media_id
        +++ codes "?"
        +++ query_params (thumbnail_params opts) in
      let first = codes "/client/v1/media/thumbnail/" +++ path in
      let second = codes "/media/v3/thumbnail/" +++ path in
      let fetched = download same_name errors mxc.server mxc.media_id in
      let sent = requests replies (get_thumbnail same_name errors opts try_download) in
      let given = result replies (get_thumbnail same_name errors opts try_download) in
      ((¬ IsMissing (replies 0)) × (sent ≡ first ∷ []) × (given ≡ thumbnail_of (replies 0)))
      ⊎ (IsNotFound (replies 0)
          × (try_download ≡ true)
          × (sent ≡ first ∷ requests (rest replies) fetched)
          × (given ≡ text_and_error (result (rest replies) fetched)))
      ⊎ (IsMissing (replies 0)
          × (¬ (IsNotFound (replies 0) × (try_download ≡ true)))
          × ((IsNotFound (replies 1)
                × (try_download ≡ true)
                × (sent ≡ first ∷ (second ∷ requests (rest (rest replies)) fetched))
                × (given ≡ text_and_error (result (rest (rest replies)) fetched)))
              ⊎ ((¬ (IsNotFound (replies 1) × (try_download ≡ true)))
                  × (sent ≡ first ∷ (second ∷ []))
                  × (given ≡ thumbnail_of (replies 1)))))

  requests-text_of :
      (replies : ℕ → Reply) (t : Task (Download E))
      → requests replies (text_of same_name errors t) ≡ requests replies t
  unfolding requests text_of
  requests-text_of replies (done d) = refl
  requests-text_of replies (ask call next) =
      ap (λ paths. call.endpoint ∷ paths) (requests-text_of (rest replies) (next (replies 0)))

  result-text_of :
      (replies : ℕ → Reply) (t : Task (Download E))
      → result replies (text_of same_name errors t) ≡ text_and_error (result replies t)
  unfolding result text_of
  result-text_of replies (done d) = refl
  result-text_of replies (ask call next) = result-text_of (rest replies) (next (replies 0))

  is_download_iff :
      (r : Reply) (try_download : Bool)
      → (is_download same_name errors try_download (prepare_callback text_reader errors r).error
          ≡ true)
        ↔ (IsNotFound r × (try_download ≡ true))
  unfolding is_download prepare_callback read_response read_error
  is_download_iff r try_download = elim (Sum-cases (errors.read r.body)) [
    | inl (what, e) ↦ rw e (ground arith)
    | inr (x, e) ↦ rw e (ground arith)
  ]

  pub get_thumbnail-requests :
      (replies : ℕ → Reply) (opts : ThumbOpts) (try_download : Bool)
      → ThumbnailRequests replies opts try_download
  unfolding get_thumbnail requests result
  get_thumbnail-requests replies opts try_download =
      let mxc = parse_mxc_url opts.mxc_url in
      let fetched = download same_name errors mxc.server mxc.media_id in
      elim (IsMissing-cases text_reader errors (replies 0)) [
        | inr (there, test) ↦ inl (there, rw test refl, rw (result, test) refl)
        | inl (missing, test) ↦ inr (elim (iff_cases _ (is_download_iff (replies 0) try_download)) [
          | inl ((not_found, tried), first) ↦ inl (
            not_found,
            tried,
            rw (test, first, requests-text_of (rest replies) fetched) refl,
            rw (result, test, first, result-text_of (rest replies) fetched) refl,
          )
          | inr (other, first) ↦ inr (
            missing,
            other,
            elim (iff_cases _ (is_download_iff (replies 1) try_download)) [
              | inl ((not_found, tried), second) ↦ inl (
                not_found,
                tried,
                rw (test, first, second, requests-text_of (rest (rest replies)) fetched) refl,
                rw (result, test, first, second, result-text_of (rest (rest replies)) fetched) refl,
              )
              | inr (last, second) ↦
                  inr (last, rw (test, first, second) refl, rw (result, test, first, second) refl)
            ],
          )
        ])
      ]
