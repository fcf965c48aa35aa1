-- ===== src/Notification/Email.antt =====
-- notification/internal/service/notification.go: the e-mails, sent through an SMTP dialer.
use microservices_go.Prelude.{String, ℤ, Bytes, codes, decimal_int, ◌++◌}
use microservices_go.Errors.{wrap, Result, done, fail}

pub record Email : Type 0 where
  pub from_header : String
  pub to_header : String
  pub subject : String
  pub content_type : String
  pub body : Bytes

-- gomail.Dialer: the account that sends, and what DialAndSend makes of an e-mail.
pub record Dialer : Type 0 where
  pub username : String
  pub dial_and_send : Email → Result (Unit {0})

abbrev pub welcome_email : Dialer → String → Email
welcome_email dialer email = record {
  from_header = dialer.username;
  to_header = email;
  subject = "Welcome to our service!";
  content_type = "text/plain";
  body =
      codes "Dear "
      ++ (codes email ++ codes ", thank you for registering in our billing service. Best regards");
}

abbrev pub deposit_email : Dialer → String → ℤ → Email
deposit_email dialer email amount = record {
  from_header = dialer.username;
  to_header = email;
  subject = "Your deposit was succeeded";
  content_type = "text/plain";
  body = codes "Your deposit " ++ (decimal_int amount ++ codes " was succeeded at our platform.");
}

abbrev deliver : Dialer → Email → Result Email
deliver dialer email = elim (dialer.dial_and_send email) [
  | fail err ↦ fail (wrap "failed to send email" err)
  | done _ ↦ done email
]

-- The e-mail that was sent is named in the result.
unfoldable pub send_welcome_email : Dialer → String → Result Email
send_welcome_email dialer email = deliver dialer (welcome_email dialer email)

unfoldable pub send_deposit_success_email : Dialer → String → ℤ → Result Email
send_deposit_success_email dialer email amount = deliver dialer (deposit_email dialer email amount)
