-- ===== src/Auth/Grants.antt =====
-- What it takes to be authorized.
use camrtsp.Common.{ℕ, ◌-◌, ◌≤◌, ◌≡◌, some, List}
use camrtsp.Text.{chars, strip_prefix}
use camrtsp.Text.Utf8.{as_bytes}
use camrtsp.Request.{Request}
use camrtsp.Auth.{
  Packages, AuthState, nonce_ttl, digest_parameters, get, or_else, colon, hash_of, response_input,
}

module _ (packages : Packages) (request : Request) (username password : List ℕ) (auth : AuthState)
    (now : ℕ) where
  -- Basic: the token decodes to the user's name and password.
  pub record BasicGrant (value : List ℕ) : Type 0 where
    pub token : List ℕ
    pub prefix : strip_prefix (chars "Basic ") value ≡ some token
    pub decodes :
        packages.base64_decode (as_bytes token) ≡ some (as_bytes (colon username password))

  -- Digest: the nonce is the session's and not too old, the user, the realm and the URI are those of
  -- the request, and the response is the hash of the secret, the nonce and the request.
  pub record DigestGrant (value : List ℕ) : Type 0 where
    pub parameters : List ℕ
    pub prefix : strip_prefix (chars "Digest ") value ≡ some parameters
    pub fresh : now - auth.issued ≤ nonce_ttl
    pub user : get (digest_parameters parameters) (chars "username") ≡ some username
    pub nonce : get (digest_parameters parameters) (chars "nonce") ≡ some auth.nonce
    pub uri : get (digest_parameters parameters) (chars "uri") ≡ some request.uri
    pub hash : List ℕ → List ℕ
    pub known :
        hash_of packages
          (or_else (get (digest_parameters parameters) (chars "algorithm")) (chars "MD5"))
        ≡ some hash
    pub input : List ℕ
    pub accepted :
        response_input
          (hash (colon username (colon (chars "camrtsp") password)))
          auth.nonce
          (hash (colon request.method request.uri))
          (get (digest_parameters parameters) (chars "qop"))
          (get (digest_parameters parameters) (chars "nc"))
          (get (digest_parameters parameters) (chars "cnonce"))
        ≡ some input
    pub response : get (digest_parameters parameters) (chars "response") ≡ some (hash input)
