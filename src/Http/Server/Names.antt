-- ===== src/Http/Server/Names.antt =====
-- A server's URL names its protocol, its name and its port.
use native.Mathlib.Omega.{pow_step}
use mtxclient.Shared.{
  ℕ, zero, suc, ◌+◌, ◌-◌, ◌*◌, ◌/◌, ◌%◌, ◌^◌, ◌<◌, ◌≡◌, ◌∙◌, refl, ap, ◌⊎◌, Bool-cases, inl, inr,
  true, false, some, List, [], ◌∷◌, ◌++◌, all, take-append, length, arith, ltb, ◌==◌, codes,
}
use mtxclient.Identifiers.{find_first_of, skip}
use mtxclient.Identifiers.Parts.{no_colon, find_first_of-append, skip-append}
use mtxclient.Utils.{is_digit, is_number}
use mtxclient.Http.{Client, digits, decimal, server_url}
use mtxclient.Http.Server.{
  drop_slash, count, value_from, stoul, read_scheme, with_port, read_name, starts_with, set_server,
}

value_from-cons :
    (n m d : ℕ) (s : List ℕ) → n * 10 + (d - 48) ≡ m → value_from n (d ∷ s) ≡ value_from m s
value_from-cons n m d s e = unfold value_from in ap (λ k. value_from k s) e

-- The digits of a number are read back, where the fuel is as many digits as it has.
value_from-digits :
    (fuel n : ℕ) (s : List ℕ) → n < 10 ^ fuel → value_from 0 (digits fuel n s) ≡ value_from n s
unfolding digits
value_from-digits zero n s h = ap (λ m. value_from m s) (omega arith)
value_from-digits (suc fuel) n s h = elim (Bool-cases (ltb n 10)) [
  | inl small ↦ rw small (value_from-cons 0 n (n + 48) s (omega arith))
  | inr large ↦ rw large (
      value_from-digits fuel (n / 10) _ (omega (arith, pow_step 10 fuel))
      ∙ value_from-cons (n / 10) n (n % 10 + 48) s (omega arith))
]

digits-all :
    (fuel n : ℕ) (s : List ℕ) → all is_digit s ≡ true → all is_digit (digits fuel n s) ≡ true
unfolding digits
digits-all zero n s h = h
digits-all (suc fuel) n s h = elim (Bool-cases (ltb n 10)) [
  | inl small ↦ rw small (ground arith)
  | inr large ↦ rw large (digits-all fuel (n / 10) _ (ground arith))
]

-- The digits of a port: a text that is not empty, of digits alone, and reads as the port.
record IsPort (port : ℕ) (s : List ℕ) : Type 0 where
  number : is_number s ≡ true
  plain : no_colon s ≡ true
  ends : drop_slash s ≡ s
  reads : stoul s ≡ some port

digits-cons : (fuel n : ℕ) (s : List ℕ) → (d : ℕ) × (t : List ℕ) × (digits (suc fuel) n s ≡ d ∷ t)
unfolding digits
digits-cons zero n s = elim (Bool-cases (ltb n 10)) [
  | inl small ↦ (n + 48, s, rw small refl)
  | inr large ↦ (n % 10 + 48, s, rw large refl)
]
digits-cons (suc fuel) n s = elim (Bool-cases (ltb n 10)) [
  | inl small ↦ (n + 48, s, rw small refl)
  | inr large ↦ let (d, t, e) = digits-cons fuel (n / 10) ((n % 10 + 48) ∷ s) in (d, t, rw large e)
]

no_colon_of_digits : (s : List ℕ) → all is_digit s ≡ true → no_colon s ≡ true
no_colon_of_digits [] h = refl
no_colon_of_digits (c ∷ s) h = ground (arith, no_colon_of_digits s)

drop_slash_of_digits : (s : List ℕ) → all is_digit s ≡ true → drop_slash s ≡ s
unfolding drop_slash
drop_slash_of_digits [] h = refl
drop_slash_of_digits (c ∷ []) h = ground arith
drop_slash_of_digits (c ∷ (d ∷ s)) h = ap (λ t. c ∷ t) (drop_slash_of_digits (d ∷ s) (ground arith))

is_number_of_digits :
    (s t : List ℕ) (d : ℕ) → s ≡ d ∷ t → all is_digit s ≡ true → is_number s ≡ true
unfolding is_number
is_number_of_digits s t d e h = rw e (rw e at h)

stoul-small : (s : List ℕ) (n : ℕ) → value_from 0 s ≡ n → n < 2 ^ 64 → stoul s ≡ some n
unfolding stoul
stoul-small s n e h = rw e (ground arith)

decimal-IsPort : (port : ℕ) → port < 2 ^ 16 → IsPort port (decimal port)
decimal-IsPort port h =
    let all_digits = digits-all 20 port [] refl in
    let (d, t, e) = digits-cons 19 port [] in
    record {
      number = is_number_of_digits (decimal port) t d e all_digits;
      plain = no_colon_of_digits (decimal port) all_digits;
      ends = drop_slash_of_digits (decimal port) all_digits;
      reads =
          stoul-small (decimal port) port
            (value_from-digits 20 port [] (omega arith) ∙ value_from-nil port) (omega arith);
    }
  where
    value_from-nil : (n : ℕ) → value_from n [] ≡ n
    value_from-nil n = unfold value_from in refl

count-plain : (s : List ℕ) → no_colon s ≡ true → count b':' s ≡ 0
unfolding count
count-plain [] h = refl
count-plain (c ∷ s) h = elim (Bool-cases (c == b':')) [
  | inl colon ↦ cc (rw colon at h)
  | inr plain ↦ rw plain (count-plain s (rw plain at h))
]

count-colon :
    (s t : List ℕ) → no_colon s ≡ true → no_colon t ≡ true → count b':' (s ++ b':' ∷ t) ≡ 1
unfolding count
count-colon [] t h k = ap suc (count-plain t k)
count-colon (c ∷ s) t h k = elim (Bool-cases (c == b':')) [
  | inl colon ↦ cc (rw colon at h)
  | inr plain ↦ rw plain (count-colon s t (rw plain at h) k)
]

drop_slash-append :
    (s t : List ℕ) (c d : ℕ)
    → drop_slash (d ∷ t) ≡ d ∷ t
    → drop_slash (s ++ c ∷ (d ∷ t)) ≡ s ++ c ∷ (d ∷ t)
unfolding drop_slash
drop_slash-append [] t c d h = ap (λ u. c ∷ u) h
drop_slash-append (a ∷ []) t c d h = ap (λ u. a ∷ (c ∷ u)) h
drop_slash-append (a ∷ (b ∷ s)) t c d h = ap (λ u. a ∷ u) (drop_slash-append (b ∷ s) t c d h)

-- A name without a colon, a colon and a digit do not begin with the scheme.
no_scheme :
    (s t : List ℕ) (d : ℕ)
    → no_colon s ≡ true
    → is_digit d ≡ true
    → starts_with (codes "http://") (s ++ b':' ∷ (d ∷ t)) ≡ false
no_scheme [] t d h k = refl
no_scheme (a ∷ []) t d h k = ground arith
no_scheme (a ∷ (b ∷ [])) t d h k = ground arith
no_scheme (a ∷ (b ∷ (c ∷ []))) t d h k = ground arith
no_scheme (a ∷ (b ∷ (c ∷ (e ∷ [])))) t d h k = ground arith
no_scheme (a ∷ (b ∷ (c ∷ (e ∷ (f ∷ s))))) t d h k = ground arith

no_scheme-decimal :
    (host : List ℕ) (port : ℕ)
    → no_colon host ≡ true
    → starts_with (codes "http://") (host ++ b':' ∷ decimal port) ≡ false
no_scheme-decimal host port h =
    let (b, t, e) = digits-cons 19 port [] in
    let all_digits = digits-all 20 port [] refl in
    rw e (no_scheme host t b h (first_digit b t (rw e at all_digits)))
  where
    first_digit : (b : ℕ) (t : List ℕ) → all is_digit (b ∷ t) ≡ true → is_digit b ≡ true
    first_digit b t h = ground arith

read_scheme-https :
    (s : List ℕ)
    → starts_with (codes "http://") s ≡ false
    → read_scheme (codes "https://" ++ s)
      ≡ record { protocol = codes "https"; port = 443; name = s }
unfolding read_scheme
read_scheme-https s h = rw h refl

read_scheme-http :
    (s : List ℕ)
    → read_scheme (codes "http://" ++ s) ≡ record { protocol = codes "http"; port = 80; name = s }
unfolding read_scheme
read_scheme-http s = refl

-- A host without a colon, and the digits of a port behind it.
read_name-port :
    (c : Client) (protocol host digits_of : List ℕ) (default_port port : ℕ)
    → no_colon host ≡ true
    → IsPort port digits_of
    → port < 2 ^ 16
    → read_name c
        (record { protocol = protocol; port = default_port; name = host ++ b':' ∷ digits_of })
        (find_first_of b':' (host ++ b':' ∷ digits_of))
      ≡ (record c { protocol = protocol; server = host; port = port }, true)
unfolding read_name with_port
read_name-port c protocol host digits_of default_port port h k small =
    rw
      (
        find_first_of-append host digits_of h,
        count-colon host digits_of h k.plain,
        skip-behind host digits_of,
        k.number,
        take-append host (b':' ∷ digits_of),
        k.reads,
      )
      (ap (λ n. (record c { protocol = protocol; server = host; port = n }, true)) (omega arith))
  where
    skip-behind : (s t : List ℕ) → skip (suc (length s)) (s ++ b':' ∷ t) ≡ t
    skip-behind s t =
        ap (λ n. skip n (s ++ b':' ∷ t)) {x = suc (length s)} (omega arith) ∙ skip-append s t b':'

-- What `set_server` does behind a scheme that has been read.
set_server-scheme :
    (server protocol host : List ℕ) (default_port port : ℕ) (d : Client)
    → read_scheme server
      ≡ record { protocol = protocol; port = default_port; name = host ++ b':' ∷ decimal port }
    → no_colon host ≡ true
    → port < 2 ^ 16
    → set_server server d ≡ (record d { protocol = protocol; server = host; port = port }, true)
unfolding set_server
set_server-scheme server protocol host default_port port d e h small =
    let k = decimal-IsPort port small in
    let (b, t, digit) = digits-cons 19 port [] in
    rw (e, keeps b t digit k.ends)
      (read_name-port d protocol host (decimal port) default_port port h k small)
  where
    keeps :
        (b : ℕ) (t : List ℕ)
        → decimal port ≡ b ∷ t
        → drop_slash (decimal port) ≡ decimal port
        → drop_slash (host ++ b':' ∷ decimal port) ≡ host ++ b':' ∷ decimal port
    keeps b t digit ends = rw digit (drop_slash-append host t b':' b (rw digit at ends))

-- Reading the URL of a client gives back its protocol, its server and its port and keeps the rest, where the
-- protocol is https or http, the server has no colon and the port has 16 bits.
pub set_server-server_url :
    (c d : Client)
    → (c.protocol ≡ codes "https") ⊎ (c.protocol ≡ codes "http")
    → no_colon c.server ≡ true
    → c.port < 2 ^ 16
    → set_server (server_url c) d
      ≡ (record d { protocol = c.protocol; server = c.server; port = c.port }, true)
unfolding server_url
set_server-server_url c d (inl https) h small = rw https (
    set_server-scheme _ (codes "https") c.server 443 c.port d
      (read_scheme-https (c.server ++ b':' ∷ decimal c.port) (no_scheme-decimal c.server c.port h))
      h small)
set_server-server_url c d (inr http) h small = rw http (
    set_server-scheme _ (codes "http") c.server 80 c.port d
      (read_scheme-http (c.server ++ b':' ∷ decimal c.port)) h small)
