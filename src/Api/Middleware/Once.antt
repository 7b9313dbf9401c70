-- ===== src/Api/Middleware/Once.antt =====
-- A one-time password is accepted once, and from its mail to its use.
use go2bank.Prelude.{ℕ, String, ◌≡◌, refl, ◌∙◌, ◌≢◌, Bool, true, none, some}
use go2bank.Prelude.Int.{ℤ}
use go2bank.Redis.Sparing.{Spares, IsKeyed, Spares-get}
use go2bank.Db.Error.{message}
use go2bank.Api.Gin.{returned, go_on, done, Handler, World, Exit, panicked, ◌>>=◌, next}
use go2bank.Api.Middleware.{verify_otp_middleware, otp_key, resume}
use go2bank.Api.Session.{on_kv, seconds}
use go2bank.Db.Query.{err, ok}
use go2bank.Redis.{pair_path, IsMap, KvStore}
use go2bank.Token.{Payload}

module _ {S : Type 0} (kv : KvStore S) where
  -- What is left once the rest of the chain has come back.
  abbrev pub forget : String → Handler S Unit
  forget username = do deleted ← on_kv kv (kv.del (otp_key kv username)); done tt

  abbrev pub then_forget : String → Exit Unit × World S → Exit Unit × World S
  then_forget username (panicked, w) = (panicked, w)
  then_forget username (_, w) = (next tt, (forget username w).1)

module _ {S : Type 0} (kv : KvStore S) (m : IsMap kv) (verify_time : String → ℤ → String → ℕ → Bool)
    (otp_duration : ℕ) where
  resume_then :
      (username : String) (o : Exit Unit × World S)
      → go_on (resume o).0 (λ _. forget kv username) (resume o).1 ≡ then_forget kv username o
  unfolding ◌>>=◌
  resume_then username (next a, w) = refl
  resume_then username (returned, w) = refl
  resume_then username (panicked, w) = refl

  -- A signed-in user who sends a code that the stored secret gives: the rest of the chain runs, on
  -- the world as it is, and the secret is deleted unless it panics.
  pub verify_otp_middleware-accepts :
      (now : ℕ) (otp secret : String) (auth : Payload) (rest : Handler S Unit) (w : World S)
      → w.payload ≡ some auth
      → (kv.get (otp_key kv auth.username) w.kv).0 ≡ ok secret
      → verify_time secret (seconds otp_duration) otp now ≡ true
      → verify_otp_middleware kv verify_time otp_duration now (some otp) rest w
        ≡ then_forget kv auth.username (rest w)
  unfolding verify_otp_middleware ◌>>=◌
  verify_otp_middleware-accepts now otp secret auth rest w signed_in stored verified =
      rw (signed_in, stored, m.get-reads (otp_key kv auth.username) w.kv, verified)
        (resume_then auth.username (rest (record w { payload = some auth })))

  -- No secret: the code is refused, and the store of tables is left.
  forgotten :
      (now : ℕ) (otp : String) (auth : Payload) (rest : Handler S Unit) (w : World S)
      → w.payload ≡ some auth
      → (kv.get (otp_key kv auth.username) w.kv).0 ≡ err (message "redis: nil")
      → let o = verify_otp_middleware kv verify_time otp_duration now (some otp) rest w in
        (o.0 ≡ returned) × (o.1.db ≡ w.db)
  unfolding verify_otp_middleware ◌>>=◌
  forgotten now otp auth rest w signed_in gone = rw (signed_in, gone) (refl, refl)

  not_panicked :
      (username : String) (o : Exit Unit × World S)
      → o.0 ≢ panicked
      → then_forget kv username o ≡ (next tt, (forget kv username o.1).1)
  not_panicked username (next a, w) h = refl
  not_panicked username (returned, w) h = refl
  not_panicked username (panicked, w) h = absurd (h refl)

  deleted_of :
      (username : String) (w : World S)
      → (kv.del (otp_key kv username) w.kv).0 ≡ none
      → (kv.get (otp_key kv username) (forget kv username w).1.kv).0 ≡ err (message "redis: nil")
  unfolding ◌>>=◌
  deleted_of username w h = m.get-del (otp_key kv username) w.kv _ (pair_path _ h)

  -- A code that was accepted is accepted no more: after a request that the check let through, that
  -- did not panic, and after which the deletion of the secret returned no error, every request
  -- with a code of that user, at any time, is refused and leaves the store, whatever calls of the
  -- key-value store came in between, as long as none set or deleted the user's secret.
  pub verify_otp_middleware-once :
      IsKeyed kv
      → (now later : ℕ) (otp secret again : String) (auth : Payload) (rest rest' : Handler S Unit)
        (w w' : World S)
      → w.payload ≡ some auth
      → (kv.get (otp_key kv auth.username) w.kv).0 ≡ ok secret
      → verify_time secret (seconds otp_duration) otp now ≡ true
      → (rest w).0 ≢ panicked
      → (kv.del (otp_key kv auth.username) (rest w).1.kv).0 ≡ none
      → Spares kv
          (otp_key kv auth.username)
          (verify_otp_middleware kv verify_time otp_duration now (some otp) rest w).1.kv
          w'.kv
      → w'.payload ≡ some auth
      → let o = verify_otp_middleware kv verify_time otp_duration later (some again) rest' w' in
        (o.0 ≡ returned) × (o.1.db ≡ w'.db)
  verify_otp_middleware-once k now later otp secret again auth rest rest' w w' signed_in stored
        verified came_back deleted spared signed_in' =
      let e =
        verify_otp_middleware-accepts now otp secret auth rest w signed_in stored verified
        ∙ not_panicked auth.username (rest w) came_back in
      forgotten later again auth rest' w' signed_in'
        (Spares-get m k spared ∙ rw e (deleted_of auth.username (rest w).1 deleted))
