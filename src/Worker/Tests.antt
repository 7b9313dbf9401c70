-- ===== src/Worker/Tests.antt =====
-- A one-time password is asked for and sent.
use go2bank.Prelude.{
  ℕ, String, ◌≡◌, refl, Bool, Option, none, some, [], ◌∷◌, ◌++◌, arith, ◌==◌, nat_eq, string_eq,
}
use go2bank.Prelude.Int.{ℤ, pos}
use go2bank.Api.Gin.{notice, respond, Handler, World}
use go2bank.Api.Middleware.{verify_otp_middleware}
use go2bank.Api.Middleware.Once.{then_forget}
use go2bank.Worker.Delivery.{mailed_code-accepted, IsTotp}
use go2bank.Db.Error.{Error}
use go2bank.Db.Query.{statement}
use go2bank.Db.User.{find_user, get_user}
use go2bank.Redis.Memory.{remove, memory, Memory, memory-IsMap}
use go2bank.Samples.{bank, ann_payload}
use go2bank.Worker.{OtpMail, process_task_send_verify_email, Desk}

abbrev desk : Desk Memory
desk = record { db = bank; kv = record { values = []; windows = [] }; mails = [] }

abbrev letters : String → ℤ → ℕ → String
letters secret _ _ = "123456"

abbrev process : String → Desk Memory → Option Error × Desk Memory
process username d =
    process_task_send_verify_email memory letters (λ _. none) 60000000000 100 "seed" (some username)
      d

worker_code : Unit {0}
unfolding process_task_send_verify_email get_user statement find_user remove
worker_code = tt

abbrev served : Desk Memory
served = record desk {
  kv = record { values = ("otp:ann", "seed") ∷ []; windows = [] };
  mails = record { to = "ann@x.org"; otp = "123456"; lasts = pos 60 } ∷ [];
}

serves_ann : process "ann" desk ≡ (none, served)
unfolding worker_code
serves_ann = refl

abbrev checks_letters : String → ℤ → String → ℕ → Bool
checks_letters _ _ code _ = code == "123456"

letters-IsTotp : IsTotp letters checks_letters
letters-IsTotp = record { verifies = λ secret step now later h e. refl }

abbrev reply : Handler Memory Unit
reply = respond 200 (notice "message" "reached")

-- The time of the mail is 100, and of the request 119: the step of 60 seconds is the same.
abbrev asked : World Memory
asked = record { db = bank; kv = served.kv; payload = some ann_payload; calls = [] }

mailed_code-accepted_example :
    (mail : OtpMail) × (served.mails ≡ desk.mails ++ mail ∷ [])
    × (verify_otp_middleware memory checks_letters 60000000000 119 (some mail.otp) reply asked
        ≡ then_forget memory "ann" (reply asked))
unfolding worker_code
mailed_code-accepted_example =
    mailed_code-accepted memory letters checks_letters (λ _. none) 60000000000 100 "seed"
      memory-IsMap letters-IsTotp "ann" desk served serves_ann (omega arith) 119 refl ann_payload
      refl reply asked refl refl
