-- ===== src/Channels/Email.antt =====
-- src/apps/channels/email.py: `EmailChannel.send`. The mail backend is a parameter.
use notify_relay.Prelude.{
  ℕ, String, true, false, ◌&&◌, none, some, ltb, leb, ◌==◌, str_eq, if◌then◌else◌,
}
use notify_relay.Models.{Message}
use notify_relay.Channels.{Sent, returned, threw}

-- The `EmailMessage` that is sent, as HTML.
pub record Email : Type 0 where
  pub subject : String
  pub body : String
  pub from_email : String
  pub recipient : String

-- How `email.send(fail_silently=False)` ends: with the number of sent mails, with an answer of the
-- server (SMTPResponseException), with another SMTPException, or with any other exception.
-- The code of `server_answer` is one that could be read: the -1 that smtplib gives for other answers
-- has no case.
pub data MailOutcome : Type 0 where
  delivered : ℕ → MailOutcome
  server_answer : ℕ → String → MailOutcome
  smtp_exception : String → MailOutcome
  other_exception : String → MailOutcome

abbrev pub or_no_subject : String → String
or_no_subject s = if str_eq s "" then "(no subject)" else s

abbrev pub email_of : String → Message → Email
email_of from m = record {
  subject = or_no_subject m.rendered_subject;
  body = m.rendered_body;
  from_email = from;
  recipient = m.recipient;
}

unfoldable pub mail_result : MailOutcome → Sent
mail_result (server_answer status e) = returned (record {
  success = false;
  transient = leb 400 status && ltb status 500;
  error_message = e;
  http_status = none;
  smtp_code = some status;
})
mail_result (smtp_exception e) = returned (record {
  success = false;
  transient = true;
  error_message = e;
  http_status = none;
  smtp_code = none;
})
mail_result (other_exception e) = threw e
mail_result (delivered n) = returned (
    if n == 0
    then record {
      success = false;
      transient = true;
      error_message = "email backend reported zero sent";
      http_status = none;
      smtp_code = none;
    }
    else record {
      success = true;
      transient = false;
      error_message = "";
      http_status = none;
      smtp_code = none;
    })

-- `EmailChannel.send`.
unfoldable pub send : (Email → MailOutcome) → String → Message → Sent
send backend from m = mail_result (backend (email_of from m))
