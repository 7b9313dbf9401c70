-- ===== src/Api/Middleware/Auth.antt =====
-- When `authMiddleware` runs the rest of the chain.
use go2bank.Prelude.{
  ℕ, String, ◌≡◌, refl, ◌∙◌, ◌⊎◌, inl, inr, Option, none, some, List, [], ◌∷◌, eq_iff, ltb, ◌==◌,
  nat_eq, string_eq, if◌then◌else◌, Bool-cases, length,
}
use go2bank.Api.Gin.{Handler, returned, Exit, panicked, World, ◌>>=◌, ◌>>◌, next}
use go2bank.Api.Middleware.{
  short_header, set_payload, must_be_bearer, access_token_of, to_lower, fields, ctx_next, resume,
  token_in, auth_middleware, or_abort,
}
use go2bank.Api.Quiet.{
  abort_with-Still, Quiet, bind-Quiet, done-Quiet, abort_with-Quiet, panic-Quiet, Stays-trans,
  abort_with_return-Quiet, Quiet-bind,
}
use go2bank.Api.Session.{Request}
use go2bank.Db.Error.{Error}
use go2bank.Token.{Paseto, verify_token, Payload, Maker}

module _ {S : Type 0} where
  pub resume-world : (o : Exit Unit × World S) → (resume o).1 ≡ o.1
  resume-world (next a, w) = refl
  resume-world (returned, w) = refl
  resume-world (panicked, w) = refl

-- Where the access token stands: in the cookie, or else in a header of at least two parts.
abbrev pub IsTokenIn : List String → String → Type 0
IsTokenIn parts token =
    (first : String) × (more : List String) × (parts ≡ first ∷ token ∷ more)
    × (to_lower first ≡ "bearer")

abbrev pub IsTokenOf : Request → Option String → String → Type 0
IsTokenOf request none token = IsTokenIn (fields (request.header "authorization")) token
IsTokenOf request (some cookie) token = token ≡ cookie

module _ {S : Type 0} where
  must_be_bearer-Quiet :
      (t : String) (w : World S)
      → Quiet (must_be_bearer t) w (λ _ w'. (t ≡ "bearer") × (w'.kv ≡ w.kv))
  unfolding must_be_bearer
  must_be_bearer-Quiet t w = elim (Bool-cases (t == "bearer")) [
    | inl e ↦ rw (e, if◌then◌else◌) (done-Quiet tt w ((eq_iff t "bearer").0 e, refl))
    | inr e ↦ rw (e, if◌then◌else◌) (abort_with_return-Quiet 401 _ w)
  ]

  short_header-Quiet :
      (parts : List String) (w : World S) → Quiet (short_header parts) w (λ _ w'. w'.kv ≡ w.kv)
  unfolding short_header
  short_header-Quiet parts w = elim (Bool-cases (ltb (length parts) 2)) [
    | inl e ↦ rw (e, if◌then◌else◌) (abort_with-Still 401 _ w)
    | inr e ↦ rw (e, if◌then◌else◌) (done-Quiet tt w refl)
  ]

  token_in-Quiet :
      (parts : List String) (w : World S)
      → Quiet (token_in parts) w (λ token w'. IsTokenIn parts token × (w'.kv ≡ w.kv))
  unfolding token_in
  token_in-Quiet [] w =
      Quiet-bind _ _ w (abort_with-Quiet 401 _ w)
        λ _ w1 s1 _. Quiet-bind {Fact = λ _ _. ⊥} _ _ w1 (panic-Quiet w1) λ _ w2 s2 no. absurd no
  token_in-Quiet (t ∷ []) w = Quiet-bind _ _ w (abort_with-Quiet 401 _ w) λ _ w1 s1 _.
      Quiet-bind _ _ w1 (done-Quiet {Fact = λ _ _. Unit} t w1 tt)
        λ _ w2 s2 _. Quiet-bind _ _ w2 (must_be_bearer-Quiet _ w2) λ _ w3 s3 _. panic-Quiet w3
  token_in-Quiet (t ∷ u ∷ more) w =
      Quiet-bind _ _ w (short_header-Quiet (t ∷ u ∷ more) w) λ _ w1 s1 kv1.
        Quiet-bind _ _ w1 (done-Quiet {Fact = λ a v. (a ≡ t) × (v.kv ≡ w1.kv)} t w1 (refl, refl))
          λ a w2 s2 is_t. Quiet-bind _ _ w2 (must_be_bearer-Quiet _ w2) λ _ w3 s3 bearer.
            done-Quiet u w3 ((t, more, refl, rw (← is_t.0) bearer.0), bearer.1 ∙ is_t.1 ∙ kv1)

  access_token_of-Quiet :
      (request : Request) (cookie : Option String) (w : World S)
      → Quiet
          (access_token_of request cookie)
          w
          (λ token w'. IsTokenOf request cookie token × (w'.kv ≡ w.kv))
  unfolding access_token_of
  access_token_of-Quiet request (some cookie) w = done-Quiet cookie w (refl, refl)
  access_token_of-Quiet request none w = elim (Bool-cases (request.header "authorization" == "")) [
    | inl e ↦ rw (e, if◌then◌else◌) (abort_with_return-Quiet 401 _ w)
    | inr e ↦ rw (e, if◌then◌else◌) (token_in-Quiet _ w)
  ]

  or_abort-Quiet :
      {A : Type 0} (r : A ⊎ Error) (w : World S)
      → Quiet (or_abort r) w (λ a w'. (r ≡ inl a) × (w'.kv ≡ w.kv))
  unfolding or_abort
  or_abort-Quiet (inl a) w = done-Quiet a w (refl, refl)
  or_abort-Quiet (inr e) w = abort_with_return-Quiet 401 _ w

  -- The rest of the chain has run, for the payload of a token that verifies.
  pub record Authorizes (paseto : Paseto) (maker : Maker) (now : ℕ) (request : Request)
      (rest : Handler S Unit) (w : World S) (o : Exit Unit × World S) : Type 0 where
    pub token : String
    pub payload : Payload
    pub at : World S
    pub sent : IsTokenOf request (request.cookie "access_token") token
    pub verified : verify_token paseto maker now token ≡ inl payload
    pub db : at.db ≡ w.db
    pub kv : at.kv ≡ w.kv
    pub signed_in : at.payload ≡ some payload
    pub ran : o.1 ≡ (rest at).1

  set_payload-rest :
      (p : Payload) (rest : Handler S Unit) (w : World S)
      → (do set_payload p; ctx_next rest) w ≡ ctx_next rest (record w { payload = some p })
  unfolding ◌>>=◌
  set_payload-rest p rest w = refl

  -- The authentication leaves the store as it is, or it has run the rest of the chain for the
  -- payload of a token that verifies, from the cookie or, if there is none, from a bearer header.
  pub auth_middleware-safe :
      (paseto : Paseto) (maker : Maker) (now : ℕ) (request : Request) (rest : Handler S Unit)
      (w : World S)
      → let out = auth_middleware paseto maker now request rest w in
        (out.1.db ≡ w.db) ⊎ Authorizes paseto maker now request rest w out
  unfolding auth_middleware
  auth_middleware-safe paseto maker now request rest w =
      bind-Quiet (Authorizes paseto maker now request rest w) _ _ w
        (access_token_of-Quiet request (request.cookie "access_token") w)
        λ token w1 s1 sent.
          bind-Quiet (Authorizes paseto maker now request rest w) _ _ w1
            (or_abort-Quiet (verify_token paseto maker now token) w1)
            λ payload w2 s2 verified. inr (record {
              token = token;
              payload = payload;
              at = record w2 { payload = some payload };
              sent = sent.0;
              verified = verified.0;
              db = (Stays-trans s1 s2).db;
              kv = verified.1 ∙ sent.1;
              signed_in = refl;
              ran = rw (set_payload-rest payload rest w2) (resume-world _);
            })
