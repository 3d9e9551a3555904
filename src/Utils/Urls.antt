-- ===== src/Utils/Urls.antt =====
-- Percent encoding: what it may contain, and how it is undone.
use mtxclient.Shared.{
  ℕ, ◌+◌, ◌-◌, ◌*◌, ◌/◌, ◌%◌, ◌<◌, ◌≡◌, ◌∙◌, refl, ap, Bool-cases, inl, inr, true, false, ◌||◌,
  List, [], ◌∷◌, all, ltb, arith, ◌==◌, if◌then◌else◌, AreBytes,
}
use mtxclient.Utils.{is_kept, hex_digit, url_encode}

abbrev hex_value : ℕ → ℕ
hex_value h = if ltb h 58 then h - 48 else h - 55

-- What a reader of a URL does: a percent sign and two digits are one byte.
unfoldable pub percent_decode : List ℕ → List ℕ
percent_decode [] = []
percent_decode (c ∷ []) = c ∷ []
percent_decode (c ∷ (d ∷ [])) = c ∷ (d ∷ [])
percent_decode (c ∷ (h ∷ (l ∷ s))) =
    let escaped = percent_decode s in
    let plain = percent_decode (h ∷ (l ∷ s)) in
    if c == b'%' then (hex_value h * 16 + hex_value l) ∷ escaped else c ∷ plain

pub percent_decode-plain :
    (c : ℕ) (s : List ℕ) → (c == b'%') ≡ false → percent_decode (c ∷ s) ≡ c ∷ percent_decode s
unfolding percent_decode
percent_decode-plain c [] e = refl
percent_decode-plain c (d ∷ []) e = refl
percent_decode-plain c (h ∷ (l ∷ s)) e = rw e refl

pub kept_is_plain : (c : ℕ) → is_kept c ≡ true → (c == b'%') ≡ false
unfolding is_kept
kept_is_plain c e = ground arith

hex_value-hex_digit : (n : ℕ) → n < 16 → hex_value (hex_digit n) ≡ n
hex_value-hex_digit n h = ground arith

-- Reading an encoded string of bytes gives the bytes.
pub percent_decode-url_encode : (s : List ℕ) → AreBytes s → percent_decode (url_encode s) ≡ s
unfolding url_encode
percent_decode-url_encode [] h = unfold percent_decode in refl
percent_decode-url_encode (c ∷ s) (small, h) = elim (Bool-cases (is_kept c)) [
  | inl kept ↦ rw kept (
      percent_decode-plain c (url_encode s) (kept_is_plain c kept)
      ∙ ap (λ t. c ∷ t) (percent_decode-url_encode s h))
  | inr other ↦ rw other (
      percent_decode-escaped (c / 16) (c % 16) (url_encode s) (omega arith) (omega arith)
      ∙ cc (omega_parts c, percent_decode-url_encode s h))
]
  where
    omega_parts : (c : ℕ) → c / 16 * 16 + c % 16 ≡ c
    omega_parts c = omega arith

    percent_decode-escaped :
        (high low : ℕ) (s : List ℕ)
        → high < 16
        → low < 16
        → percent_decode (b'%' ∷ (hex_digit high ∷ (hex_digit low ∷ s)))
          ≡ (high * 16 + low) ∷ percent_decode s
    percent_decode-escaped high low s h l =
        unfold percent_decode in cc (hex_value-hex_digit high h, hex_value-hex_digit low l)

hex_is_kept : (n : ℕ) → n < 16 → is_kept (hex_digit n) ≡ true
unfolding is_kept
hex_is_kept n h = ground arith

-- An encoded string of bytes has letters, digits, `-`, `_`, `.`, `~` and percent signs alone: it cannot end a
-- value of a query or begin another.
pub url_encode-all :
    (s : List ℕ) → AreBytes s → all (λ c. is_kept c || c == b'%') (url_encode s) ≡ true
unfolding url_encode
url_encode-all [] h = refl
url_encode-all (c ∷ s) (small, h) = elim (Bool-cases (is_kept c)) [
  | inl kept ↦ rw (kept, kept) (url_encode-all s h)
  | inr other ↦
      rw (other, hex_is_kept (c / 16) (omega arith), hex_is_kept (c % 16) (omega arith))
        (ground (arith, url_encode-all s h))
]
