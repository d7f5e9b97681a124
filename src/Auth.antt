-- ===== src/Auth.antt =====
-- crates/camrtsp-server/src/lib.rs: `authorized` and `digest_parameters`. Base64 and the hashes are
-- packages that the server calls: `Packages` holds them as arguments. An `Instant` is a number of
-- microseconds.
pub mod Grants
use camrtsp.Common.{
  ℕ, ◌+◌, ◌-◌, Bool, true, false, ◌&&◌, ◌||◌, not, Option, none, some, List, [], ◌∷◌, ◌++◌, length,
  ltb, ◌==◌, same, if◌then◌else◌,
}
use camrtsp.Text.{
  chars, trim, trim_matches, to_ascii_lowercase, eq_ignore_ascii_case, split, split_once,
  strip_prefix, from_str_radix,
}
use camrtsp.Text.Utf8.{as_bytes}
use camrtsp.Request.{Request, Headers, header}

-- `base64::STANDARD`, and the lower-case hexadecimal digests of SHA-256 and MD5 of a text's bytes
pub record Packages : Type 0 where
  pub base64_encode : List ℕ → List ℕ
  pub base64_decode : List ℕ → Option (List ℕ)
  pub sha256_hex : List ℕ → List ℕ
  pub md5_hex : List ℕ → List ℕ

-- NONCE_TTL, 300 seconds
abbrev pub nonce_ttl : ℕ
nonce_ttl = 300000000

pub record AuthState : Type 0 where
  pub nonce : List ℕ
  pub issued : ℕ

-- `value.trim().trim_matches('"')`
abbrev pub digest_parameter : Option (List ℕ × List ℕ) → Headers
digest_parameter none = []
digest_parameter (some (key, value)) =
    (to_ascii_lowercase (trim key), trim_matches b'"' (trim value)) ∷ []

-- `collect()` into a map: a later parameter replaces an earlier one, so the last one stands first.
unfoldable pub collect_parameters : List (List ℕ) → Headers → Headers
unfolding split_once trim to_ascii_lowercase trim_matches
collect_parameters [] values = values
collect_parameters (part ∷ parts) values =
    collect_parameters parts (digest_parameter (split_once b'=' (trim part)) ++ values)

unfoldable pub digest_parameters : List ℕ → Headers
unfolding collect_parameters split
digest_parameters value = collect_parameters (split b',' value) []

-- `values.get(key)`, on the map above
unfoldable pub get : Headers → List ℕ → Option (List ℕ)
unfolding same
get [] key = none
get ((k, v) ∷ rest) key = if same k key then some v else get rest key

-- `values.get(key).map(String::as_str) == Some(expected)`
unfoldable pub is_given : Headers → List ℕ → List ℕ → Bool
unfolding get same
is_given values key expected = elim (get values key) [
  | none ↦ false
  | some value ↦ same value expected
]

abbrev pub or_else : Option (List ℕ) → List ℕ → List ℕ
or_else none other = other
or_else (some value) other = value

abbrev pub positive : Option ℕ → Bool
positive none = false
positive (some n) = ltb 0 n

abbrev pub colon : List ℕ → List ℕ → List ℕ
colon a b = a ++ (b':' ∷ b)

module _ (packages : Packages) where
  -- The hash that the client asks for; `none` is an algorithm that is not known.
  unfoldable pub hash_of : List ℕ → Option (List ℕ → List ℕ)
  unfolding eq_ignore_ascii_case as_bytes
  hash_of algorithm =
      if eq_ignore_ascii_case algorithm (chars "SHA-256")
      then some (λ value. packages.sha256_hex (as_bytes value))
      else if eq_ignore_ascii_case algorithm (chars "MD5")
      then some (λ value. packages.md5_hex (as_bytes value))
      else none

-- The string that is hashed for the response, by the parameters `qop`, `nc` and `cnonce`.
unfoldable pub response_input :
    List ℕ → List ℕ → List ℕ → Option (List ℕ) → Option (List ℕ) → Option (List ℕ) → Option (List ℕ)
unfolding same as_bytes from_str_radix
response_input ha1 nonce ha2 (some qop) (some nc) (some cnonce) =
    if same qop (chars "auth")
      && length (as_bytes nc) == 8
      && positive (from_str_radix 16 4294967295 nc)
      && not (length cnonce == 0)
    then some (colon ha1 (colon nonce (colon nc (colon cnonce (colon qop ha2)))))
    else none
response_input ha1 nonce ha2 none none none = some (colon ha1 (colon nonce ha2))
response_input ha1 nonce ha2 _ _ _ = none

abbrev pub response_matches : Option (List ℕ) → Option (List ℕ) → (List ℕ → List ℕ) → Bool
response_matches (some input) (some response) hash = same (hash input) response
response_matches _ _ hash = false

-- The response to the parameters, under the hash that they name.
unfoldable pub digest_response :
    Request → List ℕ → List ℕ → List ℕ → Headers → (List ℕ → List ℕ) → Bool
unfolding response_input get same
digest_response request username password nonce values hash =
    let ha1 = hash (colon username (colon (chars "camrtsp") password)) in
    let ha2 = hash (colon request.method request.uri) in
    response_matches
      (response_input ha1 nonce ha2 (get values (chars "qop")) (get values (chars "nc"))
        (get values (chars "cnonce")))
      (get values (chars "response")) hash

abbrev pub with_hash : Option (List ℕ → List ℕ) → ((List ℕ → List ℕ) → Bool) → Bool
with_hash none k = false
with_hash (some hash) k = k hash

abbrev pub token_matches : Option (List ℕ) → List ℕ → Bool
token_matches none expected = false
token_matches (some decoded) expected = same expected decoded

module _ (packages : Packages) where
  unfoldable pub digest_authorized : Request → List ℕ → List ℕ → AuthState → ℕ → Headers → Bool
  unfolding is_given hash_of digest_response get
  digest_authorized request username password auth now values =
      if not (ltb nonce_ttl (now - auth.issued))
        && is_given values (chars "username") username
        && is_given values (chars "realm") (chars "camrtsp")
        && is_given values (chars "nonce") auth.nonce
        && is_given values (chars "uri") request.uri
      then with_hash (hash_of packages (or_else (get values (chars "algorithm")) (chars "MD5")))
          (digest_response request username password auth.nonce values)
      else false

  unfoldable pub digest_or_refuse :
      Request → List ℕ → List ℕ → AuthState → ℕ → Option (List ℕ) → Bool
  unfolding digest_authorized digest_parameters
  digest_or_refuse request username password auth now none = false
  digest_or_refuse request username password auth now (some parameters) =
      digest_authorized request username password auth now (digest_parameters parameters)

  unfoldable pub basic_or_digest :
      Request → List ℕ → List ℕ → AuthState → ℕ → List ℕ → Option (List ℕ) → Bool
  unfolding digest_or_refuse as_bytes same strip_prefix
  basic_or_digest request username password auth now value (some token) =
      token_matches (packages.base64_decode (as_bytes token)) (as_bytes (colon username password))
  basic_or_digest request username password auth now value none =
      digest_or_refuse request username password auth now (strip_prefix (chars "Digest ") value)

  unfoldable pub with_value : Request → List ℕ → List ℕ → AuthState → ℕ → Option (List ℕ) → Bool
  unfolding basic_or_digest strip_prefix
  with_value request username password auth now none = false
  with_value request username password auth now (some value) =
      basic_or_digest request username password auth now value (strip_prefix (chars "Basic ") value)

  unfoldable pub authorized : Request → Option (List ℕ × List ℕ) → AuthState → ℕ → Bool
  unfolding with_value header
  authorized request none auth now = true
  authorized request (some (username, password)) auth now =
      with_value request username password auth now (header request (chars "authorization"))
