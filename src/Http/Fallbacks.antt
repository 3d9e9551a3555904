-- ===== src/Http/Fallbacks.antt =====
-- Which requests the calls make that fall back to others, and what their callbacks are given.
pub mod Summaries
pub mod Thumbnails
use mtxclient.Shared.{
  ℕ, suc, ◌≡◌, ◌↔◌, ◌⊎◌, ap, Bool-cases, true, false, not, List, [], ◌∷◌, ◌+++◌, codes, arith,
}
use mtxclient.Utils.{url_encode}

abbrev pub media_path : List ℕ → List ℕ → List ℕ
media_path server media_id = url_encode server +++ codes "/" +++ url_encode media_id
