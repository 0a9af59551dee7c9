-- ===== src/Mail/Signature.antt =====
-- crates/server/src/mail/signature.rs: what is appended to a reply.
pub mod Html
use ai_memmail.Prelude.{Option, none, some, List, [], ◌∷◌, ◌++◌, if◌then◌else◌}
use ai_memmail.Text.{Text, text, trim_end, contains_text}
use ai_memmail.Config.{MailboxConfig, EmailSignatureConfig, EmailSignatureFormat, plain_text, html}
use ai_memmail.Mail.{OutboundAction, OutboundActionKind, reply, forward, noop}
use Html.{plain_text_to_html}

unfoldable pub automated_reply_notice : Text
automated_reply_notice =
    text
      "This automated reply was sent on Mark's behalf. If this needs Mark's attention, reply with: escalation to human"

unfoldable pub automated_reply_body : Text → Text
automated_reply_body body =
    if contains_text body automated_reply_notice
    then body
    else trim_end body ++ (text "\n\n--\n" ++ automated_reply_notice)

unfoldable pub plain_reply_body_with_signature : Text → Text → Text
plain_reply_body_with_signature body signature =
    trim_end body ++ (text "\n\n" ++ trim_end signature)

unfoldable pub html_reply_body_with_signature : Text → Text → Text
html_reply_body_with_signature body signature_html =
    plain_text_to_html (trim_end body) ++ (text "<br><br>" ++ trim_end signature_html)

abbrev signed : EmailSignatureFormat → Text → OutboundAction → OutboundAction
signed plain_text content action = record action {
  body = plain_reply_body_with_signature action.body content;
}
signed html content action = record action {
  html_body = some (html_reply_body_with_signature action.body content);
}

abbrev sign_reply : Option EmailSignatureConfig → OutboundAction → OutboundAction
sign_reply none action = record action { body = automated_reply_body action.body }
sign_reply (some signature) action = signed signature.format signature.content action

abbrev sign_kind : OutboundActionKind → MailboxConfig → OutboundAction → OutboundAction
sign_kind reply mailbox action = sign_reply mailbox.signature action
sign_kind forward mailbox action = action
sign_kind noop mailbox action = action

unfoldable pub apply_reply_signature : MailboxConfig → OutboundAction → OutboundAction
apply_reply_signature mailbox action =
    sign_kind action.kind mailbox (record action { html_body = none })
