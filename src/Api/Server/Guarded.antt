-- ===== src/Api/Server/Guarded.antt =====
-- What stands before the handlers of the group /api/auth.
use go2bank.Prelude.{
  ℕ, String, len, ◌≡◌, refl, subst, ◌⊎◌, inl, inr, Bool, true, Option, none, some, List, [], ◌∷◌,
  ◌++◌, ◌==◌, nat_eq, string_eq, if◌then◌else◌, Bool-cases,
}
use go2bank.Api.Server.Setup.{Parts, Input, Moment, Route}
use go2bank.Api.Gin.{Handler, World, Exit}
use go2bank.Api.Middleware.Auth.{IsTokenOf, auth_middleware-safe}
use go2bank.Api.Quiet.{Quiet, bind-Quiet, call-Quiet}
use go2bank.Api.Server.{served, new_server, routes, auth_routes, auth_group, public_routes}
use go2bank.Api.Session.{Request}
use go2bank.Token.{new_paseto_maker, verify_token, Payload, Paseto, Maker}
use Prim.Native.String.{slice}

abbrev auth_prefix : String
auth_prefix = "/api/auth/"

abbrev pub is_behind_auth : String → Bool
is_behind_auth path = slice path 0 10 == auth_prefix

-- The request carries a token that verifies.
pub record HasToken (paseto : Paseto) (maker : Maker) (now : ℕ) (request : Request) : Type 0 where
  pub token : String
  pub payload : Payload
  pub sent : IsTokenOf request (request.cookie "access_token") token
  pub verified : verify_token paseto maker now token ≡ inl payload

inl-injective : {A B : Type 0} {x y : A} → ◌≡◌ {A = A ⊎ B} (inl x) (inl y) → x ≡ y
inl-injective h = cc

new_paseto_maker-key :
    (key : String) (maker : Maker)
    → new_paseto_maker key ≡ some maker
    → maker ≡ record { symmetric_key = key }
unfolding new_paseto_maker
new_paseto_maker-key key maker h = elim (Bool-cases (len key == 32)) [
  | inl fits ↦ let e = rw (fits, if◌then◌else◌) at h in cc
  | inr short ↦ absurd (let e = rw (short, if◌then◌else◌) at h in cc)
]

module _ {S : Type 0} where
  abbrev pub AllRoutes : (Route S → Type 0) → List (Route S) → Type 0
  AllRoutes P [] = Unit
  AllRoutes P (r ∷ rs) = P r × AllRoutes P rs

  AllRoutes-append :
      (P : Route S → Type 0) (xs ys : List (Route S))
      → AllRoutes P xs
      → AllRoutes P ys
      → AllRoutes P (xs ++ ys)
  AllRoutes-append P [] ys h k = k
  AllRoutes-append P (x ∷ xs) ys h k = (h.0, AllRoutes-append P xs ys h.1 k)

  module _ (parts : Parts S) (input : Input) (moment : Moment S) where
    -- The csrf library answers or goes on, and neither reads nor writes the store.
    abbrev pub IsAside : Type 0
    IsAside = (w : World S) → Quiet moment.csrf_verify w (λ _ _. Unit)

    -- A request without a token that verifies leaves the store.
    abbrev pub IsGuarded : Maker → Route S → Type 0
    IsGuarded maker r =
        is_behind_auth r.path ≡ true
        → (w : World S)
        → ((r.chain w).1.db ≡ w.db) ⊎ HasToken parts.paseto maker moment.setting.now moment.request

    module _ (maker : Maker) (aside : IsAside) where
      auth_group-guards :
          (rest : Handler S Unit) (w : World S)
          → ((auth_group parts maker input moment rest w).1.db ≡ w.db)
            ⊎ HasToken parts.paseto maker moment.setting.now moment.request
      unfolding auth_group
      auth_group-guards rest w =
          let Good = λ (_ : Exit Unit × World S).
            HasToken parts.paseto maker moment.setting.now moment.request in
          bind-Quiet Good _ _ w (aside w) λ _ w1 s1 _.
            bind-Quiet Good _ _ w1 (call-Quiet _ w1) λ _ w2 s2 _.
              elim (auth_middleware-safe parts.paseto maker moment.setting.now moment.request rest
                w2) [
                  | inl same ↦ inl same
                  | inr a ↦ inr (record {
                    token = a.token;
                    payload = a.payload;
                    sent = a.sent;
                    verified = a.verified;
                  })
                ]

      public-IsGuarded : AllRoutes (IsGuarded maker) (public_routes parts maker input moment)
      unfolding public_routes
      public-IsGuarded = (
        λ h. absurd (cc),
        (
          λ h. absurd (cc),
          (
            λ h. absurd (cc),
            (λ h. absurd (cc), (λ h. absurd (cc), (λ h. absurd (cc), (λ h. absurd (cc), tt)))),
          ),
        ),
      )

      auth-IsGuarded : AllRoutes (IsGuarded maker) (auth_routes parts maker input moment)
      unfolding auth_routes
      auth-IsGuarded = (
        λ _. auth_group-guards _,
        (
          λ _. auth_group-guards _,
          (
            λ _. auth_group-guards _,
            (
              λ _. auth_group-guards _,
              (
                λ _. auth_group-guards _,
                (
                  λ _. auth_group-guards _,
                  (
                    λ _. auth_group-guards _,
                    (
                      λ _. auth_group-guards _,
                      (λ _. auth_group-guards _, (λ _. auth_group-guards _, tt)),
                    ),
                  ),
                ),
              ),
            ),
          ),
        ),
      )

    -- In every server that `NewServer` makes, a request to any path below /api/auth leaves the store
    -- as it is, or carries an access token that verifies under the server's key, whatever its
    -- method, its body and the chain of its route. The csrf library leaves the store.
    pub new_server-IsGuarded :
        (key : String) (rs : List (Route S))
        → new_server parts key input moment ≡ inl rs
        → IsAside
        → AllRoutes (IsGuarded (record { symmetric_key = key })) rs
    unfolding new_server served routes
    new_server-IsGuarded key rs h aside = by_maker (new_paseto_maker key) refl h
      where
        by_maker :
            (made : Option Maker)
            → new_paseto_maker key ≡ made
            → served parts input moment made ≡ inl rs
            → AllRoutes (IsGuarded (record { symmetric_key = key })) rs
        by_maker none e h = cc
        by_maker (some maker) e h = rw (← new_paseto_maker-key key maker e) (
            subst (AllRoutes (IsGuarded maker)) (inl-injective h) (
              AllRoutes-append (IsGuarded maker) (public_routes parts maker input moment)
                (auth_routes parts maker input moment) (public-IsGuarded maker aside)
                (auth-IsGuarded maker aside)))
