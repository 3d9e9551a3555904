-- ===== src/Libraries/Re2.antt =====
-- RE2, as far as the modelled code calls it.
use mtxclient.Shared.{String, Bool}

pub record Re2Library : Type 1 where
  pub Regex : Type 0
  -- the constructor, with the option `case_sensitive`
  pub compile : String → Bool → Regex
  pub quote_meta : String → String
  -- `GlobalReplace(&text, re, rewrite)` with the new text
  pub global_replace : String → Regex → String → String
  pub partial_match : String → Regex → Bool
  pub full_match : String → Regex → Bool
