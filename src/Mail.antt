-- ===== src/Mail.antt =====
-- mail/gmail.go. The library email reads the files and sends; the state of the mail server is `M`.
mod Tests
use go2bank.Prelude.{
  String, ◌≡◌, refl, ap, ◌⊎◌, inl, inr, Option, some, List, [], ◌∷◌, ◌++◌, append-snoc,
}
use mathlib.Core.List.{append-nil}
use Prim.Native.String.{◌++◌ as append}
use go2bank.Db.Error.{message, Error}
use go2bank.Db.Model.{failed}
use go2bank.Db.Query.{Result-cases, Result, err, ok}

abbrev pub smtp_auth_address : String
smtp_auth_address = "smtp.gmail.com"

abbrev pub smtp_server_address : String
smtp_server_address = "smtp.gmail.com:587"

pub record GmailSender : Type 0 where
  pub name : String
  pub from_email_address : String
  pub from_email_password : String

-- `smtp.PlainAuth`
pub record PlainAuth : Type 0 where
  pub identity : String
  pub username : String
  pub password : String
  pub host : String

pub record Email : Type 0 where
  pub from : String
  pub subject : String
  pub html : String
  pub to : List String
  pub attachments : List String

-- The library: the content of a file, and the call that sends.
pub record Post (M : Type 0) : Type 0 where
  pub read_file : String → Result String
  pub send : String → PlainAuth → Email → M → Option Error × M

abbrev pub new_gmail_sender : String → String → String → GmailSender
new_gmail_sender name from_email_address from_email_password = record {
  name = name;
  from_email_address = from_email_address;
  from_email_password = from_email_password;
}

module _ {M : Type 0} (post : Post M) where
  attached : String → Email → Result String → Result Email
  attached f e (ok content) = ok (record e { attachments = e.attachments ++ content ∷ [] })
  attached f e (err _) = err (message (append "failed to attach file " f))

  -- The loop over the files. Of a wrapped error only the first words are kept.
  pub attach_files : List String → Email → Result Email
  unfolding attached
  attach_files [] e = ok e
  attach_files (f ∷ fs) e = elim (attached f e (post.read_file f)) [
    | ok e' ↦ attach_files fs e'
    | err x ↦ err x
  ]

  module _ (sender : GmailSender) where
    abbrev pub new_email : String → String → List String → Email
    new_email subject content to = record {
      from = append sender.name (append " <" (append sender.from_email_address ">"));
      subject = subject;
      html = content;
      to = to;
      attachments = [];
    }

    abbrev pub smtp_auth : PlainAuth
    smtp_auth = record {
      identity = "";
      username = sender.from_email_address;
      password = sender.from_email_password;
      host = smtp_auth_address;
    }

    send_attached : Result Email → M → Option Error × M
    send_attached (err e) m = (some e, m)
    send_attached (ok e) m = post.send smtp_server_address smtp_auth e m

    -- `SendEmail`
    unfoldable pub send_email : String → String → List String → List String → M → Option Error × M
    unfolding attach_files send_attached
    send_email subject content to attach_list =
        send_attached (attach_files attach_list (new_email subject content to))

    -- The contents of the files, in their order.
    pub data Read : List String → List String → Type 0 where
      read_none : Read [] []
      read_one :
          (f : String) (content : String) (fs : List String) (contents : List String)
          → post.read_file f ≡ ok content
          → Read fs contents
          → Read (f ∷ fs) (content ∷ contents)

    -- The mail was sent with the content of every file.
    pub record Sent (files : List String) (e : Email) (m : M) (o : Option Error × M) : Type 0 where
      pub contents : List String
      pub read : Read files contents
      pub answer :
          o
          ≡ post.send smtp_server_address smtp_auth
              (record e { attachments = e.attachments ++ contents })
              m

    -- A file could not be read, the first such one, and the mail was not sent.
    pub record Unread (files : List String) (m : M) (o : Option Error × M) : Type 0 where
      pub file : String
      pub before : List String
      pub later : List String
      pub attached_before : files ≡ before ++ file ∷ later
      pub contents : List String
      pub read_before : Read before contents
      pub why : Error
      pub unread : post.read_file file ≡ err why
      pub answer : o ≡ (some (message (append "failed to attach file " file)), m)

    attach_files-Sent :
        (files : List String) (e : Email) (m : M)
        → let o = send_attached (attach_files files e) m in Sent files e m o ⊎ Unread files m o
    unfolding attach_files attached send_attached
    attach_files-Sent [] e m =
        inl (record { contents = []; read = read_none; answer = rw append-nil refl })
    attach_files-Sent (f ∷ fs) e m = elim (Result-cases (post.read_file f)) [
      | inr (content, h) ↦
          rw (send_attached, h)
            (elim (attach_files-Sent fs (record e { attachments = e.attachments ++ content ∷ [] })
              m) [
                | inl s ↦ inl (record {
                  contents = content ∷ s.contents;
                  read = read_one f content fs s.contents h s.read;
                  answer = rw (← append-snoc e.attachments content s.contents) s.answer;
                })
                | inr u ↦ inr (record {
                  file = u.file;
                  before = f ∷ u.before;
                  later = u.later;
                  attached_before = ap (λ xs. f ∷ xs) u.attached_before;
                  contents = content ∷ u.contents;
                  read_before = read_one f content u.before u.contents h u.read_before;
                  why = u.why;
                  unread = u.unread;
                  answer = u.answer;
                })
              ])
      | inl (why, h) ↦
          rw (send_attached, h)
            (inr (record {
              file = f;
              before = [];
              later = fs;
              attached_before = refl;
              contents = [];
              read_before = read_none;
              why = why;
              unread = h;
              answer = refl;
            }))
    ]

    -- The mail went to the server of Gmail, under the sender's account, with the content of every file.
    pub record Mailed (subject content : String) (to files : List String) (m : M)
        (o : Option Error × M) : Type 0 where
      pub contents : List String
      pub read : Read files contents
      pub answer :
          o
          ≡ post.send "smtp.gmail.com:587"
              (record {
                identity = "";
                username = sender.from_email_address;
                password = sender.from_email_password;
                host = "smtp.gmail.com";
              })
              (record {
                from = append sender.name (append " <" (append sender.from_email_address ">"));
                subject = subject;
                html = content;
                to = to;
                attachments = contents;
              })
              m

    -- A mail is handed to Gmail's server with the contents of all its files, in their order, or one
    -- of them cannot be read: then the error names the first such file, and nothing is sent.
    pub send_email-Mailed :
        (subject content : String) (to files : List String) (m : M)
        → let o = send_email subject content to files m in
          Mailed subject content to files m o ⊎ Unread files m o
    unfolding send_email
    send_email-Mailed subject content to files m =
        elim (attach_files-Sent files (new_email subject content to) m) [
          | inl s ↦ inl (record { contents = s.contents; read = s.read; answer = s.answer })
          | inr unread ↦ inr unread
        ]
