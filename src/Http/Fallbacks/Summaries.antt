-- ===== src/Http/Fallbacks/Summaries.antt =====
-- Which requests a summary of a room makes, and what its callback is given.
use mtxclient.Shared.{
  ℕ, ◌≡◌, ◌⊎◌, inl, inr, refl, Bool-cases, true, false, Option, List, [], ◌∷◌, ◌+++◌, codes,
}
use mtxclient.Utils.{url_encode, query_params, more_params, is_kept}
use mtxclient.Http.{is_empty, digits}
use mtxclient.Http.Tasks.{Reply}
use mtxclient.Http.Tasks.Runs.{requests, result, IsMissing, IsMissing-cases}
use mtxclient.Http.Replies.{Reader, ClientError, prepare_callback}
use mtxclient.Http.Directory.{
  summary_of_hierarchy, summary_of_alias, get_summary, get_hierarchy, resolve_room_alias, is_alias,
  summary_query, hierarchy_params, first_room,
}
use mtxclient.Http.Params.{emplace}

module _ {ℓ κ} {T : Type ℓ} {E : Type κ} (chunks : Reader T) (room_ids : Reader (List ℕ))
    (hierarchies : Reader (List T)) (errors : Reader E) where
  abbrev pub summary_path : List ℕ → List (List ℕ) → List ℕ
  summary_path room_id via =
      codes "/client/unstable/im.nheko.summary/rooms/"
      +++ url_encode room_id
      +++ codes "/summary"
      +++ summary_query via

  abbrev pub alias_path : List ℕ → List ℕ
  alias_path alias = codes "/client/v3/directory/room/" +++ url_encode alias

  abbrev pub hierarchy_path : List ℕ → List ℕ
  hierarchy_path room_id =
      codes "/client/v1/rooms/" +++ url_encode room_id +++ codes "/hierarchy?limit=1"

  -- What the callback is given of a reply with a hierarchy.
  abbrev pub first_of : Reply → T × Option (ClientError E)
  first_of r =
      let a = prepare_callback hierarchies errors r in
      first_room chunks room_ids hierarchies errors a.response a.error

  -- The requests of a summary: the hierarchy of the room where the first reply misses the endpoint, with the id
  -- that an alias resolves to, if it does.
  abbrev pub SummaryRequests : (ℕ → Reply) → List ℕ → List (List ℕ) → Type (ℓ ⊔ κ)
  SummaryRequests replies room_id via =
      let sent = requests replies (get_summary chunks room_ids hierarchies errors room_id via) in
      let given = result replies (get_summary chunks room_ids hierarchies errors room_id via) in
      let resolved = (prepare_callback room_ids errors (replies 1)).response in
      let summary = prepare_callback chunks errors (replies 0) in
      ((¬ IsMissing (replies 0))
        × (sent ≡ summary_path room_id via ∷ [])
        × (given ≡ (summary.response, summary.error)))
      ⊎ (IsMissing (replies 0)
          × (((is_alias room_id ≡ false)
                × (sent ≡ summary_path room_id via ∷ (hierarchy_path room_id ∷ []))
                × (given ≡ first_of (replies 1)))
              ⊎ ((is_alias room_id ≡ true)
                  × (is_empty resolved ≡ true)
                  × (sent ≡ summary_path room_id via ∷ (alias_path room_id ∷ []))
                  × (given ≡ (chunks.empty, (prepare_callback room_ids errors (replies 1)).error)))
              ⊎ ((is_alias room_id ≡ true)
                  × (is_empty resolved ≡ false)
                  × (sent
                      ≡ summary_path room_id via
                        ∷ (alias_path room_id ∷ (hierarchy_path resolved ∷ [])))
                  × (given ≡ first_of (replies 2)))))

  hierarchy_call :
      (room_id : List ℕ) → (get_hierarchy room_id [] 1 0 false).endpoint ≡ hierarchy_path room_id
  unfolding get_hierarchy hierarchy_params emplace query_params more_params url_encode is_kept
      digits
  hierarchy_call room_id = refl

  pub get_summary-requests :
      (replies : ℕ → Reply) (room_id : List ℕ) (via : List (List ℕ))
      → SummaryRequests replies room_id via
  unfolding get_summary summary_of_alias summary_of_hierarchy requests result resolve_room_alias
  get_summary-requests replies room_id via = elim (IsMissing-cases chunks errors (replies 0)) [
    | inr (there, test) ↦ inl (there, rw test refl, rw (result, test) refl)
    | inl (missing, test) ↦ inr (
      missing,
      elim (Bool-cases (is_alias room_id)) [
        | inr plain ↦
            inl
              (plain, rw (test, plain, hierarchy_call room_id) refl, rw (result, test, plain) refl)
        | inl alias ↦
            inr
              (elim (Bool-cases
                (is_empty (prepare_callback room_ids errors (replies 1)).response)) [
                  | inl gone ↦ inl (
                    alias,
                    gone,
                    rw (test, alias, gone) refl,
                    rw (result, test, alias, gone) refl,
                  )
                  | inr found ↦ inr (
                    alias,
                    found,
                    rw
                        (
                          test,
                          alias,
                          found,
                          hierarchy_call (prepare_callback room_ids errors (replies 1)).response,
                        )
                        refl,
                    rw (result, test, alias, found) refl,
                  )
                ])
      ],
    )
  ]
