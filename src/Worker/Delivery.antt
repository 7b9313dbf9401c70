-- ===== src/Worker/Delivery.antt =====
-- A code from its mail to its use: the worker and `verifyOTPMiddleware`.
use go2bank.Prelude.{
  ℕ, ◌/◌, ◌<◌, String, ◌≡◌, refl, Bool, true, Option, none, some, [], ◌∷◌, ◌++◌, arith,
}
use go2bank.Prelude.Int.{ℤ, pos}
use go2bank.Db.User.Changes.{find_user-username}
use go2bank.Api.Gin.{World, Handler}
use go2bank.Api.Middleware.{verify_otp_middleware}
use go2bank.Api.Middleware.Once.{then_forget, verify_otp_middleware-accepts}
use go2bank.Db.Error.{Error}
use go2bank.Db.Model.{Db, User}
use go2bank.Db.Query.{Result, err, statement-ok, ok}
use go2bank.Db.User.{user_of-ok, user_of, get_user, find_user}
use go2bank.Redis.{KvStore, IsMap}
use go2bank.Token.{Payload}
use go2bank.Worker.{
  process_task_send_verify_email, OtpMail, mail_to, process_task_send_verify_email-Served, Desk,
}

-- What gotp documents: a code stands for one step of the clock.
pub record IsTotp (code_now : String → ℤ → ℕ → String)
    (verify_time : String → ℤ → String → ℕ → Bool) : Type 0 where
  pub verifies :
      (secret : String) (step now later : ℕ)
      → 0 < step
      → later / step ≡ now / step
      → verify_time secret (pos step) (code_now secret (pos step) now) later ≡ true

get_user-username :
    (name : String) (o : Result User × Db) (db : Db) (u : User)
    → get_user name db ≡ o
    → o.0 ≡ ok u
    → u.username ≡ name
unfolding get_user
get_user-username name (ok v, db') db u h e =
    let w = statement-ok (λ (d : Db). (user_of (find_user name d.users), d)) db h in
    find_user-username name db.users u (user_of-ok _ u (ground (arith, w.ran)))
get_user-username name (err e', db') db u h e = cc

module _ {S : Type 0} (kv : KvStore S) (code_now : String → ℤ → ℕ → String)
    (verify_time : String → ℤ → String → ℕ → Bool) (send : OtpMail → Option Error)
    (limit_duration now : ℕ) (secret : String) where
  -- After the worker has served a task without an error, the user it names can use the code that
  -- was mailed, within the same step of the clock: the check of the one-time password lets the
  -- request through to the rest of the chain. The store of values is a map, and nothing else has
  -- changed it in between.
  pub mailed_code-accepted :
      IsMap kv
      → IsTotp code_now verify_time
      → (username : String) (d d' : Desk S)
      → process_task_send_verify_email kv code_now send limit_duration now secret (some username) d
        ≡ (none, d')
      → 0 < limit_duration / 1000000000
      → (later : ℕ) → later / (limit_duration / 1000000000) ≡ now / (limit_duration / 1000000000)
      → (auth : Payload) → auth.username ≡ username
      → (rest : Handler S Unit) (w : World S) → w.payload ≡ some auth
      → w.kv ≡ d'.kv
      → (mail : OtpMail) × (d'.mails ≡ d.mails ++ mail ∷ [])
        × (verify_otp_middleware kv verify_time limit_duration later (some mail.otp) rest w
            ≡ then_forget kv auth.username (rest w))
  mailed_code-accepted m totp username d d' h step later same auth is_user rest w signed_in kept =
      let s =
        process_task_send_verify_email-Served kv code_now send limit_duration now secret m username
          d d' h in
      let name = get_user-username username _ d.db s.u refl s.found in
      (
        mail_to kv code_now send limit_duration now secret s.u,
        s.mailed_once,
        verify_otp_middleware-accepts kv m verify_time limit_duration later _ secret auth rest w
            signed_in (rw (kept, is_user, ← name) s.readable)
            (totp.verifies secret _ now later step same),
      )
