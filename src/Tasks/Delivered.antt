-- ===== src/Tasks/Delivered.antt =====
-- When a task of src/tasks/delivery.py marks its message as sent.
use notify_relay.Prelude.{
  ℕ, ◌≤◌, ◌<◌, ◌≡◌, ◌↔◌, refl, sym, ap, ◌∙◌, subst, Bool, true, ◌&&◌, Option, some, ltb, leb, arith,
  Bool-cases, inl, inr, String,
}
use notify_relay.Models.{Message, MessageStatus}
use notify_relay.State.{World, TaskName, send_email, send_webhook}
use notify_relay.Channels.{ChannelResult, Sent}
use notify_relay.Channels.Email
use notify_relay.Channels.Email.{
  MailOutcome, email_of, mail_result, delivered, server_answer, smtp_exception, other_exception,
}
use notify_relay.Channels.Webhook.{
  Post, Posted, http_result, default_secret, status, timeout, request_error, client_exception,
}
use notify_relay.Channels.Webhook.Guarded.{
  Guarded, Sending, kept_back, unread, went_out, send-Sending,
}
use notify_relay.Delivery.{Request, Clock, owner, message_of, claimed_row, send_result}
use notify_relay.Delivery.Refusal.{claimable}
use notify_relay.Delivery.Attempts.{IsNumbered}
use notify_relay.Delivery.Verdict.{verdict}
use notify_relay.Delivery.Outcome.{when_sent, row_after, dispatch_records}
use notify_relay.Tasks.{Outside, post_webhook, channel_send, run}

-- The mail backend took at least one mail.
pub record Mailed (o : Outside) (m : Message) : Type 0 where
  pub mails : ℕ
  pub some_mail : 0 < mails
  pub outcome : o.backend (email_of o.default_from m) ≡ delivered mails

-- One guarded request was made, and answered with a 2xx status.
pub record Posted2xx (o : Outside) (m : Message) : Type 0 where
  pub post : Post
  pub made : (post_webhook o m).1 ≡ some post
  pub guarded :
      Guarded o.space o.ip_address o.blocked o.url o.getaddrinfo o.hmac o.str
        (default_secret o.hmac_secret o.keys m)
        o.client
        m
        (post_webhook o m).0
        post
  pub code : ℕ
  pub answer : o.client post ≡ status code
  pub good : (200 ≤ code) × (code < 300)

abbrev pub Delivered : Outside → TaskName → Message → Type 0
Delivered o send_email m = Mailed o m
Delivered o send_webhook m = Posted2xx o m

abbrev succeeds : Sent → Bool
succeeds s = (send_result s).success

mail-success :
    (out : MailOutcome)
    → succeeds (mail_result out) ≡ true
    → (n : ℕ) × (0 < n) × (out ≡ delivered n)
unfolding mail_result
mail-success (delivered n) h = (n, ground arith, refl)
mail-success (server_answer code e) h = absurd (ground (arith, h))
mail-success (smtp_exception e) h = absurd (ground (arith, h))
mail-success (other_exception e) h = absurd (ground (arith, h))

delivered-success : (n : ℕ) → 0 < n → succeeds (mail_result (delivered n)) ≡ true
unfolding mail_result
delivered-success n h = ground arith

http-success :
    (str : ℕ → String) (p : Posted)
    → succeeds (http_result str p) ≡ true
    → (code : ℕ) × (p ≡ status code) × (200 ≤ code) × (code < 300)
unfolding http_result
http-success str (status code) h = elim (Bool-cases (leb 200 code && ltb code 300)) [
  | inl good ↦ (code, refl, ground arith, ground arith)
  | inr bad ↦ absurd (ground (arith, h, bad))
]
http-success str (timeout e) h = absurd (ground (arith, h))
http-success str (request_error e) h = absurd (ground (arith, h))
http-success str (client_exception e) h = absurd (ground (arith, h))

status-success :
    (str : ℕ → String) (code : ℕ)
    → 200 ≤ code
    → code < 300
    → succeeds (http_result str (status code)) ≡ true
unfolding http_result
status-success str code low high = ground arith

-- A channel reports success exactly if the message was delivered.
email-Delivered :
    (o : Outside) (m : Message)
    → (succeeds (channel_send o send_email m) ≡ true) ↔ Delivered o send_email m
unfolding Email.send
email-Delivered o m = (
  λ good.
      let sent = mail-success (o.backend (email_of o.default_from m)) good in
      record { mails = sent.0; some_mail = sent.1; outcome = sent.2 },
  λ mailed.
      ap (λ out. succeeds (mail_result out)) mailed.outcome
      ∙ delivered-success mailed.mails mailed.some_mail,
)

posted :
    (o : Outside) (m : Message) (out : Sent × Option Post)
    → Sending o.space o.ip_address o.blocked o.url o.getaddrinfo o.hmac o.str
        (default_secret o.hmac_secret o.keys m)
        o.client
        m
        out
    → post_webhook o m ≡ out
    → succeeds out.0 ≡ true
    → Posted2xx o m
posted o m out (kept_back r unsuccessful p) same good = absurd (ground (arith, good, unsuccessful))
posted o m out (unread no_setting) same good = absurd (ground (arith, good))
posted o m out (went_out sent p guarded) same good =
    let answered =
      http-success o.str (o.client p)
        (sym (ap (λ s. (send_result s).success) guarded.answer) ∙ good) in
    record {
      post = p;
      made = ap (λ x. x.1) same;
      guarded =
          subst
            (λ s.
              Guarded o.space o.ip_address o.blocked o.url o.getaddrinfo o.hmac o.str
                (default_secret o.hmac_secret o.keys m) o.client m s p)
            (sym (ap (λ x. x.0) same)) guarded;
      code = answered.0;
      answer = answered.1;
      good = (answered.2, answered.3);
    }

webhook-Delivered :
    (o : Outside) (m : Message)
    → (succeeds (channel_send o send_webhook m) ≡ true) ↔ Delivered o send_webhook m
webhook-Delivered o m = (
  λ good.
      posted o m (post_webhook o m)
        (send-Sending o.space o.ip_address o.blocked o.url o.getaddrinfo o.hmac o.str o.hmac_secret
          o.keys o.timestamp o.client m)
        refl good,
  λ done.
      ap (λ s. succeeds s) done.guarded.answer
      ∙ ap (λ a. succeeds (http_result o.str a)) done.answer
      ∙ status-success o.str done.code done.good.0 done.good.1,
)

channel-Delivered :
    (o : Outside) (name : TaskName) (m : Message)
    → (succeeds (channel_send o name m) ≡ true) ↔ Delivered o name m
channel-Delivered o send_email m = email-Delivered o m
channel-Delivered o send_webhook m = webhook-Delivered o m

verdict-sent :
    (request : Request) (r : ChannelResult) (now : ℕ) (m : Message)
    → m.status ≡ MessageStatus.sending
    → ((row_after (verdict request r) now m).status ≡ MessageStatus.sent) ↔ (r.success ≡ true)
verdict-sent request r now m claimed =
    (λ h. ground (arith, claimed, h), λ good. ground (arith, good))

-- A run of a task on a message that it may take, whose row is as claimed when the channel is done
-- and whose attempts are numbered 1, 2, 3, ..., leaves the message "sent" exactly if the mail backend
-- took a mail, or one guarded request was made and answered with a 2xx status.
pub run-Delivered :
    (o : Outside) (name : TaskName) (others : World → World) (clock : Clock) (request : Request)
    (k : ℕ) (w : World) (m : Message)
    → message_of k w ≡ some m
    → claimable request m ≡ true
    → let mine = claimed_row (owner request) clock.claimed m in
      message_of k (when_sent others clock request k w) ≡ some mine
      → IsNumbered k (when_sent others clock request k w).attempts
      → (row : Message) × (message_of k (run o name others clock request k w).1 ≡ some row)
        × ((row.status ≡ MessageStatus.sent) ↔ Delivered o name mine)
run-Delivered o name others clock request k w m found free kept numbered =
    let mine = claimed_row (owner request) clock.claimed m in
    let recorded =
      dispatch_records (channel_send o name) others clock request k w m found free kept numbered in
    let by_verdict =
      verdict-sent request (send_result (channel_send o name mine)) clock.saved mine refl in
    let by_channel = channel-Delivered o name mine in
    (
      row_after (verdict request (send_result (channel_send o name mine))) clock.saved mine,
      recorded.row,
      (λ s. by_channel.0 (by_verdict.0 s), λ d. by_verdict.1 (by_channel.1 d)),
    )
