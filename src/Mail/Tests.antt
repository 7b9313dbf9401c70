-- ===== src/Mail/Tests.antt =====
-- Mails with and without files.
use go2bank.Prelude.{
  String, ◌≡◌, refl, ◌⊎◌, none, some, List, [], ◌∷◌, ◌++◌, ◌==◌, nat_eq, string_eq, if◌then◌else◌,
}
use go2bank.Db.Error.{message}
use go2bank.Db.Query.{ok, err, Result}
use go2bank.Mail.{
  Email, GmailSender, Post, new_gmail_sender, send_email, send_email-Mailed, Mailed, Unread,
}

abbrev files : String → Result String
files name = if name == "a.txt" then ok "alpha" else err (message "no such file")

abbrev post : Post (List Email)
post = record { read_file = files; send = λ _ _ e sent. (none, sent ++ e ∷ []) }

abbrev sender : GmailSender
sender = new_gmail_sender "Bank" "bank@x.org" "secret"

sends :
    (send_email post sender "Hi" "<p>" ("ann@x.org" ∷ []) ("a.txt" ∷ []) []).1
    ≡ record {
      from = "Bank <bank@x.org>";
      subject = "Hi";
      html = "<p>";
      to = "ann@x.org" ∷ [];
      attachments = "alpha" ∷ [];
    }
      ∷ []
unfolding send_email
sends = refl

stops_at_a_file :
    send_email post sender "Hi" "<p>" ("ann@x.org" ∷ []) ("a.txt" ∷ "b.txt" ∷ []) []
    ≡ (some (message "failed to attach file b.txt"), [])
unfolding send_email
stops_at_a_file = refl

abbrev two_files : List String
two_files = "a.txt" ∷ "b.txt" ∷ []

abbrev ann_only : List String
ann_only = "ann@x.org" ∷ []

send_email-Mailed_example :
    let o = send_email post sender "Hi" "<p>" ann_only two_files [] in
    Mailed post sender "Hi" "<p>" ann_only two_files [] o ⊎ Unread post sender two_files [] o
send_email-Mailed_example = send_email-Mailed post sender "Hi" "<p>" ann_only two_files []
