-- ===== src/Api/Server/Cors.antt =====
-- api/server.go: what the server tells browsers of other origins.
use go2bank.Prelude.{ℕ, String, Bool, true, List, [], ◌∷◌}

-- What is set of `cors.Config`; the age is in seconds.
pub record CorsConfig : Type 0 where
  pub allow_origins : List String
  pub allow_methods : List String
  pub allow_headers : List String
  pub allow_credentials : Bool
  pub expose_headers : List String
  pub max_age : ℕ

abbrev pub cors_config : List String → CorsConfig
cors_config allowed_origins = record {
  allow_origins = allowed_origins;
  allow_methods = "HEAD" ∷ "OPTIONS" ∷ "GET" ∷ "POST" ∷ "PUT" ∷ "PATCH" ∷ "DELETE" ∷ [];
  allow_headers = "Content-Type" ∷ "Authorization" ∷ "X-CSRF-Token" ∷ [];
  allow_credentials = true;
  expose_headers =
      "X-RateLimit-Limit" ∷ "X-RateLimit-Remaining" ∷ "X-RateLimit-Reset"
      ∷ "X-RateLimit-Retry-After" ∷ "X-CSRF-Token" ∷ [];
  max_age = 43200;
}
