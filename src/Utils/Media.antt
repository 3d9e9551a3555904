-- ===== src/Utils/Media.antt =====
-- Content URIs are read back.
use mtxclient.Shared.{
  ℕ, ◌≡◌, refl, Bool, Bool-cases, inl, inr, true, not, List, [], ◌∷◌, ◌++◌, all, ◌==◌,
}
use mtxclient.Utils.{split_slashes, from_parts, behind, mxc_uri_protocol, parse_mxc_url}

abbrev pub no_slash : List ℕ → Bool
no_slash s = all (λ c. not (c == b'/')) s

pub split_slashes-plain : (s : List ℕ) → no_slash s ≡ true → split_slashes s ≡ s ∷ []
unfolding split_slashes
split_slashes-plain [] h = refl
split_slashes-plain (c ∷ s) h = elim (Bool-cases (c == b'/')) [
  | inl slash ↦ cc (rw slash at h)
  | inr plain ↦ rw (plain, split_slashes-plain s (rw plain at h)) refl
]

pub split_slashes-slash :
    (s t : List ℕ) → no_slash s ≡ true → split_slashes (s ++ b'/' ∷ t) ≡ s ∷ split_slashes t
unfolding split_slashes
split_slashes-slash [] t h = refl
split_slashes-slash (c ∷ s) t h = elim (Bool-cases (c == b'/')) [
  | inl slash ↦ cc (rw slash at h)
  | inr plain ↦ rw (plain, split_slashes-slash s t (rw plain at h)) refl
]

-- The content URI of a server and a media id is read as these two, where neither has a slash; with one
-- more part without a slash behind it, as the server alone.
pub parse_mxc_url-parts :
    (server media_id more : List ℕ)
    → no_slash server ≡ true
    → no_slash media_id ≡ true
    → no_slash more ≡ true
    → (parse_mxc_url (mxc_uri_protocol ++ server ++ b'/' ∷ media_id)
        ≡ record { server = server; media_id = media_id })
      × (parse_mxc_url (mxc_uri_protocol ++ server ++ b'/' ∷ (media_id ++ b'/' ∷ more))
          ≡ record { server = server; media_id = [] })
unfolding parse_mxc_url behind from_parts
parse_mxc_url-parts server media_id more h k l = (
  rw (split_slashes-slash server media_id h, split_slashes-plain media_id k) refl,
  rw
      (
        split_slashes-slash server (media_id ++ b'/' ∷ more) h,
        split_slashes-slash media_id more k,
        split_slashes-plain more l,
      )
      refl,
)
