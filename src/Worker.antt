-- ===== src/Worker.antt =====
-- The package worker, and api/otp.go: the task that sends a one-time password. The queue is the
-- library asynq, the code of a secret the library gotp, and the mail is sent by the package mail.
pub mod Delivery
pub mod Processor
mod Tests
use go2bank.Prelude.{ℕ, String, ◌≡◌, refl, ap, Option, none, some, List, [], ◌∷◌, ◌++◌}
use go2bank.Prelude.Int.{ℤ}
use go2bank.Api.Gin.{◌>>=◌}
use go2bank.Api.Gin.{Handler, notice, error, respond, must_get}
use go2bank.Api.Session.{seconds, on_kv}
use go2bank.Db.Error.{Error, message}
use go2bank.Db.Model.{Db, User}
use go2bank.Db.Query.{err, Result, ok}
use go2bank.Db.User.{get_user}
use go2bank.Redis.{pair_path, KvStore, IsMap}
use Prim.Native.String.{◌++◌ as append}

pub record Task : Type 0 where
  pub type_name : String
  pub username : String
  pub max_retry : ℕ
  pub process_in : ℕ
  pub queue : String

abbrev pub task_send_verify_email : String
task_send_verify_email = "task:send_verify_email"

abbrev pub queue_critical : String
queue_critical = "critical"

-- The options of `sendOTP`; the delay is in nanoseconds.
abbrev pub send_otp_task : String → Task
send_otp_task username = record {
  type_name = task_send_verify_email;
  username = username;
  max_retry = 10;
  process_in = 10000000000;
  queue = queue_critical;
}

-- A mail with a code, by what varies in it.
pub record OtpMail : Type 0 where
  pub to : String
  pub otp : String
  pub lasts : ℤ

abbrev failure : String → Option Error → Option Error
failure text none = none
failure text (some e) = some (message text)

-- The store, the key-value store and the mails of a worker.
pub record Desk (S : Type 0) : Type 0 where
  pub db : Db
  pub kv : S
  pub mails : List OtpMail

module _ {S : Type 0} where
  -- `DistributeTaskSendVerifyEmail`. Of a wrapped error only the first words are kept.
  unfoldable pub distribute_task_send_verify_email :
      (Task → S → Option Error × S) → Task → S → Option Error × S
  distribute_task_send_verify_email enqueue task s =
      let (e, s') = enqueue task s in (failure "failed to enqueue task" e, s')

  pub answer_otp : Option Error → Handler S Unit
  answer_otp none =
      respond 200 (notice "message" "OTP sent. Please verify to complete the transfer.")
  answer_otp (some e) = respond 500 (error e)

  -- `sendOTP`
  unfoldable pub send_otp_handler : KvStore S → (Task → S → Option Error × S) → Handler S Unit
  unfolding answer_otp distribute_task_send_verify_email
  send_otp_handler kv enqueue = do
    auth ← must_get
    e ← on_kv kv (distribute_task_send_verify_email enqueue (send_otp_task auth.username))
    answer_otp e

  module _ (kv : KvStore S) (code_now : String → ℤ → ℕ → String) (send : OtpMail → Option Error)
      (limit_duration now : ℕ) (secret : String) where
    -- What is sent to a user.
    abbrev pub mail_to : User → OtpMail
    mail_to u = record {
      to = u.email;
      otp = code_now secret (seconds limit_duration) now;
      lasts = seconds limit_duration;
    }

    mailed : OtpMail → Option Error → Desk S → Option Error × Desk S
    mailed mail none d = (none, record d { mails = d.mails ++ mail ∷ [] })
    mailed mail (some e) d = (some (message "failed to send verify email"), d)

    stored : User → Option Error → Desk S → Option Error × Desk S
    unfolding mailed
    stored u (some e) d = (some (message "failed to set otp in redis"), d)
    stored u none d = mailed (mail_to u) (send (mail_to u)) d

    found_user : Result User → Desk S → Option Error × Desk S
    unfolding stored
    found_user (err e) d = (some (message "failed to get user"), d)
    found_user (ok u) d =
        let (e, s) = kv.set (append "otp:" u.username) secret limit_duration d.kv in
        stored u e (record d { kv = s })

    -- `ProcessTaskSendVerifyEmail`, with the secret that it draws and the time that it reads. A
    -- payload that does not decode is `none`.
    unfoldable pub process_task_send_verify_email : Option String → Desk S → Option Error × Desk S
    unfolding found_user
    process_task_send_verify_email none d = (some (message "failed to unmarshal payload"), d)
    process_task_send_verify_email (some username) d =
        let (r, db) = get_user username d.db in found_user r (record d { db = db })

    -- The user was found, the secret stored, and the mail sent.
    pub record Served (username : String) (d d' : Desk S) : Type 0 where
      pub u : User
      pub found : (get_user username d.db).0 ≡ ok u
      pub readable : (kv.get (append "otp:" u.username) d'.kv).0 ≡ ok secret
      pub sent : send (mail_to u) ≡ none
      pub mailed_once : d'.mails ≡ d.mails ++ mail_to u ∷ []

    mailed-ok :
        (mail : OtpMail) (e : Option Error) (d d' : Desk S)
        → mailed mail e d ≡ (none, d')
        → (e ≡ none) × (d'.kv ≡ d.kv) × (d'.mails ≡ d.mails ++ mail ∷ [])
    unfolding mailed
    mailed-ok mail none d d' h =
        let e = ap (λ (o : Option Error × Desk S). o.1) h in rw (← e) (refl, refl, refl)
    mailed-ok mail (some e) d d' h = cc

    stored-ok :
        (u : User) (e : Option Error) (d d' : Desk S)
        → stored u e d ≡ (none, d')
        → (e ≡ none)
          × (send (mail_to u) ≡ none)
          × (d'.kv ≡ d.kv)
          × (d'.mails ≡ d.mails ++ mail_to u ∷ [])
    unfolding stored
    stored-ok u none d d' h =
        let (a, b, c) = mailed-ok (mail_to u) (send (mail_to u)) d d' h in (refl, a, b, c)
    stored-ok u (some e) d d' h = cc

    found_user-ok :
        IsMap kv
        → (username : String) (r : Result User) (d d' : Desk S) → (get_user username d.db).0 ≡ r
        → found_user r (record d { db = (get_user username d.db).1 }) ≡ (none, d')
        → Served username d d'
    unfolding found_user
    found_user-ok m username (err e) d d' g h = cc
    found_user-ok m username (ok u) d d' g h =
        let (e, sent, same, mails) = stored-ok u _ _ d' h in
        record {
          u = u;
          found = g;
          readable =
              rw same
                (m.get-set (append "otp:" u.username) secret limit_duration d.kv _ (pair_path _ e));
          sent = sent;
          mailed_once = mails;
        }

    pub process_task_send_verify_email-Served :
        IsMap kv
        → (username : String) (d d' : Desk S)
        → process_task_send_verify_email (some username) d ≡ (none, d')
        → Served username d d'
    unfolding process_task_send_verify_email
    process_task_send_verify_email-Served m username d d' h = found_user-ok m username _ d d' refl h
