-- ===== src/Api/Middleware/Otp.antt =====
-- When `verifyOTPMiddleware` runs the rest of the chain.
use go2bank.Prelude.{ℕ, String, ◌≡◌, refl, ◌⊎◌, inr, Bool, true, false, Option, none, some}
use go2bank.Prelude.Int.{ℤ}
use go2bank.Api.Gin.{panicked, go_on, done, World, Exit, returned, Handler, ◌>>=◌, ◌>>◌, next}
use go2bank.Api.Middleware.{
  check_otp, ctx_next, resume, or_bad_body, otp_key, or_expired_otp, verify_otp_middleware,
}
use go2bank.Api.Quiet.{
  on_kv-Quiet, Stays-trans, bind-Quiet, json_and_abort-Quiet, Quiet, done-Quiet, must_get-Quiet,
  Stays,
}
use go2bank.Api.Session.{on_kv, seconds}
use go2bank.Db.Query.{Result, err, ok}
use go2bank.Redis.{KvStore}
use go2bank.Token.{Payload}

module _ {S : Type 0} (kv : KvStore S) where
  or_bad_body-Quiet :
      (body : Option String) (w : World S)
      → Quiet (or_bad_body kv body) w (λ otp w'. (body ≡ some otp) × (w'.kv ≡ w.kv))
  unfolding or_bad_body
  or_bad_body-Quiet none w = json_and_abort-Quiet 401 _ w
  or_bad_body-Quiet (some otp) w = done-Quiet otp w (refl, refl)

  or_expired_otp-Quiet :
      (stored : Result String) (w : World S)
      → Quiet (or_expired_otp kv stored) w (λ secret _. stored ≡ ok secret)
  unfolding or_expired_otp
  or_expired_otp-Quiet (ok secret) w = done-Quiet secret w refl
  or_expired_otp-Quiet (err e) w = json_and_abort-Quiet 401 _ w

  check_otp-Quiet :
      (valid : Bool) (w : World S) → Quiet (check_otp kv valid) w (λ _ _. valid ≡ true)
  unfolding check_otp
  check_otp-Quiet true w = done-Quiet tt w refl
  check_otp-Quiet false w = json_and_abort-Quiet 401 _ w

  -- The rest of the chain has run, for a code that the stored secret of the user gives.
  pub record Confirms (verify_time : String → ℤ → String → ℕ → Bool) (otp_duration now : ℕ)
      (body : Option String) (rest : Handler S Unit) (w : World S) (o : Exit Unit × World S)
      : Type 0 where
    pub otp : String
    pub auth : Payload
    pub secret : String
    pub at : World S
    pub sent : body ≡ some otp
    pub signed_in : w.payload ≡ some auth
    pub stored : (kv.get (otp_key kv auth.username) w.kv).0 ≡ ok secret
    pub verified : verify_time secret (seconds otp_duration) otp now ≡ true
    pub stays : Stays w at
    pub ran : o.1.db ≡ (rest at).1.db

  -- Deleting the secret afterwards leaves the store.
  after_next :
      (rest : Handler S Unit) (username : String) (w : World S)
      → ((do ctx_next rest; deleted ← on_kv kv (kv.del (otp_key kv username)); done tt) w).1.db
        ≡ (rest w).1.db
  unfolding ◌>>=◌
  after_next rest username w = by_exit (rest w)
    where
      by_exit :
          (o : Exit Unit × World S)
          → (go_on
              (resume o).0
              (λ _. do deleted ← on_kv kv (kv.del (otp_key kv username)); done tt)
              (resume o).1).1.db
            ≡ o.1.db
      by_exit (next a, v) = refl
      by_exit (returned, v) = refl
      by_exit (panicked, v) = refl

  -- The check of a one-time password leaves the store as it is, or it has run the rest of the
  -- chain for a signed-in user, whose stored secret gives the code that was sent.
  pub verify_otp_middleware-safe :
      (verify_time : String → ℤ → String → ℕ → Bool) (otp_duration now : ℕ) (body : Option String)
      (rest : Handler S Unit) (w : World S)
      → let out = verify_otp_middleware kv verify_time otp_duration now body rest w in
        (out.1.db ≡ w.db) ⊎ Confirms verify_time otp_duration now body rest w out
  unfolding verify_otp_middleware
  verify_otp_middleware-safe verify_time otp_duration now body rest w =
      let Good = Confirms verify_time otp_duration now body rest w in
      bind-Quiet Good _ _ w (or_bad_body-Quiet body w) λ otp w1 s1 sent.
        bind-Quiet Good _ _ w1 (must_get-Quiet w1) λ auth w2 s2 signed_in.
          let s12 = Stays-trans s1 s2 in
          bind-Quiet Good _ _ w2 (on_kv-Quiet kv (kv.get (otp_key kv auth.username)) w2)
            λ stored w3 s3 got.
              let s13 = Stays-trans s12 s3 in
              bind-Quiet Good _ _ w3 (or_expired_otp-Quiet stored w3) λ secret w4 s4 is_ok.
                let s14 = Stays-trans s13 s4 in
                bind-Quiet Good _ _ w4
                  (check_otp-Quiet (verify_time secret (seconds otp_duration) otp now) w4)
                  λ _ w5 s5 verified. inr (record {
                    otp = otp;
                    auth = auth;
                    secret = secret;
                    at = w5;
                    sent = sent.0;
                    signed_in = rw (← s1.payload) signed_in.0;
                    stored = rw (← sent.1, ← signed_in.1, ← got.0) is_ok;
                    verified = verified;
                    stays = Stays-trans s14 s5;
                    ran = after_next rest auth.username w5;
                  })
