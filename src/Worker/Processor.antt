-- ===== src/Worker/Processor.antt =====
-- worker/processor.go: the processor of the tasks, with the mail that it sends. The server of the
-- queue is the library asynq, which also picks a handler by the type of a task.
use go2bank.Prelude.{ℕ, String, ◌≡◌, refl, Option, List, [], ◌∷◌}
use go2bank.Prelude.Int.{ℤ, pos_part}
use go2bank.Util.Config.{Config}
use go2bank.Api.Validator.{decimal}
use go2bank.Db.Error.{Error}
use go2bank.Mail.{smtp_server_address, smtp_auth, Post, new_email, GmailSender, send_email}
use go2bank.Redis.{KvStore}
use go2bank.Worker.{
  task_send_verify_email, Desk, process_task_send_verify_email, queue_critical, OtpMail,
}
use Prim.Native.String.{◌++◌ as append}

abbrev pub queue_default : String
queue_default = "default"

-- The queues of `asynq.Config`, with their weights.
abbrev pub queues : List (String × ℕ)
queues = (queue_critical, 10) ∷ (queue_default, 5) ∷ []

abbrev content_head : String
content_head =
    "\n\t\t<!DOCTYPE html>\n\t\t<html lang=\"en\">\n\t\t<head>\n\t\t\t<meta charset=\"UTF-8\">"

abbrev content_meta : String
content_meta = "\n\t\t\t<meta name=\"viewport\" content=\"width=device-width, initial-scale=1.0\">"

abbrev content_title : String
content_title = "\n\t\t\t<title>OTP Code</title>\n\t\t</head>\n\t\t<body>"

-- The content of the mail. The number of seconds is not negative.
unfoldable pub otp_content : OtpMail → String
otp_content mail = append content_head (
    append content_meta (
      append content_title (
        append "\n\t\t\t<p>Your OTP is: <b>" (
          append mail.otp (
            append "</b>. It will expire in <b>" (
              append (decimal (pos_part mail.lasts))
                "</b> seconds.</p>\n\t\t</body>\n\t\t</html>"))))))

-- What the task of a one-time password sends.
unfoldable pub send_otp_mail : {M : Type 0} → Post M → GmailSender → OtpMail → M → Option Error × M
send_otp_mail post sender mail =
    send_email post sender "Transfer OTP" (otp_content mail) (mail.to ∷ []) []

-- `RedisTaskProcessor`; the store is the database.
pub record RedisTaskProcessor (S M : Type 0) : Type 0 where
  pub config : Config
  pub otp_store : KvStore S
  pub mailer : GmailSender
  pub queue_weights : List (String × ℕ)

abbrev pub new_redis_task_processor :
    {S M : Type 0} → Config → KvStore S → GmailSender → RedisTaskProcessor S M
new_redis_task_processor config otp_store mailer = record {
  config = config;
  otp_store = otp_store;
  mailer = mailer;
  queue_weights = queues;
}

-- What a handler draws, reads and finds: the secret, the time and the mail server.
pub record Tick (M : Type 0) : Type 0 where
  pub secret : String
  pub now : ℕ
  pub mail_server : M

abbrev pub TaskHandler : Type 0 → Type 0 → Type 0
TaskHandler S M = Option String → Tick M → Desk S → Option Error × Desk S

module _ {S M : Type 0} (code_now : String → ℤ → ℕ → String) (post : Post M)
    (processor : RedisTaskProcessor S M) where
  -- The handlers of the mux.
  abbrev pub handlers : List (String × TaskHandler S M)
  handlers =
      (
        task_send_verify_email,
        λ payload tick.
            process_task_send_verify_email processor.otp_store code_now
              (λ mail. (send_otp_mail post processor.mailer mail tick.mail_server).0)
              processor.config.api_limit_duration tick.now tick.secret payload,
      )
      ∷ []

  -- `Start`: the error of the server that starts with these handlers.
  abbrev pub start : (List (String × TaskHandler S M) → Option Error) → Option Error
  start start_server = start_server handlers

-- The mail of a one-time password has no files, so sending it is one call of the mail server, for
-- the user alone.
pub send_otp_mail-once :
    {M : Type 0} (post : Post M) (sender : GmailSender) (mail : OtpMail) (m : M)
    → send_otp_mail post sender mail m
      ≡ post.send smtp_server_address
          (smtp_auth post sender)
          (new_email post sender "Transfer OTP" (otp_content mail) (mail.to ∷ []))
          m
unfolding send_otp_mail send_email
send_otp_mail-once post sender mail m = refl
