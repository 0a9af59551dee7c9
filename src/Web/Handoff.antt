-- ===== src/Web/Handoff.antt =====
-- web/handoff.rs: a thread is handed off to a personal inbox from the portal. The store, the
-- transport, the drawing of UUIDs and lettre's parser are a record; an error of the store has the
-- kinds that `ApiError::from_storage` tells apart, with the text that it prints.
pub mod Create
pub mod Recipients
pub mod Possible
use ai_memmail.Prelude.{
  ℕ, String, Bool, true, false, ◌||◌, Option, none, some, List, [], ◌∷◌, ◌++◌, find, list_beq,
  if◌then◌else◌, ◌==◌, String_eq,
}
use ai_memmail.Prelude.Result.{Result, ok, err}
use ai_memmail.Text.{Text, Text_eq, text, trim, eq_ignore_ascii_case}
use ai_memmail.Config.{MailboxConfig, SmtpConfig, AppConfig}
use ai_memmail.Mail.{
  OutboundAction, forward, MailError, build, mail_error_text, ThreadMessage, ThreadContext,
  with_reference,
}
use ai_memmail.Mail.Parser.{MailParser, reply_recipient}
use ai_memmail.Mail.Forwarding.{thread_handoff_body, outbound_message_id}
use ai_memmail.Storage.{ThreadHandoff, ThreadHandoffDelivery, NewThreadHandoffDelivery}
use ai_memmail.Worker.Action.{Action, pure, call, draw, ◌>>=◌}
use ai_memmail.Worker.Services.{Operation, LogLevel, info, error, ActionEvent}
use ai_memmail.Worker.Handoff.{latest_inbound}

pub data StoreError : Type 0 where
  classification_not_found handoff_source_not_found : Text → StoreError
  invalid_classification invalid_handoff other_error : Text → StoreError

pub record ApiError : Type 0 where
  pub status : ℕ
  pub message : Text

unfoldable pub from_storage : StoreError → ApiError
from_storage (classification_not_found m) = record { status = 404; message = m }
from_storage (handoff_source_not_found m) = record { status = 404; message = m }
from_storage (invalid_classification m) = record { status = 400; message = m }
from_storage (invalid_handoff m) = record { status = 400; message = m }
from_storage (other_error m) = record { status = 500; message = m }

unfoldable pub from_mail_build : MailError → ApiError
unfolding mail_error_text
from_mail_build e = record { status = 400; message = mail_error_text e }

abbrev pub bad_request : Text → ApiError
bad_request message = record { status = 400; message = message }

pub record ThreadHandoffSource : Type 0 where
  pub run_id : Text
  pub mailbox_id : Text
  pub thread_id : Text
  pub uid_validity : ℕ
  pub uid : ℕ
  pub subject : Text
  pub status : Text
  pub safety_category : Option Text
  pub inbound_body_truncated : Bool

pub record HandoffRequest : Type 0 where
  pub request_id : Text
  pub destination : Text

pub record HandoffServices : Type 1 where
  pub World : Type 0
  pub parser : MailParser
  -- `str::parse::<Mailbox>` of lettre: the address, or the text of its error
  pub parse_mailbox : Text → Result Text Text
  pub connect : Operation World StoreError (Unit {0})
  pub thread_handoff_source : Text → Operation World StoreError ThreadHandoffSource
  pub validate_thread_handoff_ready : Text → Text → Operation World StoreError (Unit {0})
  pub latest_thread_remote_target : Text → Text → Operation World StoreError Text
  pub load_thread_context_by_id : MailboxConfig → Text → Operation World StoreError ThreadContext
  pub begin_thread_handoff_delivery :
      NewThreadHandoffDelivery → Operation World StoreError ThreadHandoffDelivery
  pub finish_thread_handoff_delivery :
      Text → Text → Text → String → Option Text → Operation World StoreError (Unit {0})
  pub active_thread_handoff : Text → Text → Operation World StoreError (Option ThreadHandoff)
  pub insert_action_log : ActionEvent → Operation World StoreError (Unit {0})
  pub send : SmtpConfig → OutboundAction → Operation World MailError (Unit {0})
  pub new_uuid : World → Text × World

-- The notes of the calls.
pub data WebCall : Type 0 where
  store_read event_stored : WebCall
  begun : NewThreadHandoffDelivery → WebCall
  mailed : OutboundAction → Result MailError (Unit {0}) → WebCall
  closed : String → WebCall

unfoldable pub validate_handoff_destination :
    MailParser → (Text → Result Text Text) → MailboxConfig → Text → Result ApiError Text
unfolding trim eq_ignore_ascii_case reply_recipient
validate_handoff_destination parser parse_mailbox mailbox destination =
    elim (parse_mailbox (trim destination)) [
      | err e ↦
          err (bad_request (text "handoff destination must be one valid email address: " ++ e))
      | ok email ↦
          if eq_ignore_ascii_case email (reply_recipient parser mailbox.address)
            || eq_ignore_ascii_case email (reply_recipient parser mailbox.smtp.from)
          then err (bad_request (text "handoff destination must not be the managed mailbox"))
          else ok email
    ]

unfoldable pub validate_handoff_target : Text → Text → Result ApiError (Unit {0})
unfolding eq_ignore_ascii_case
validate_handoff_target destination remote_target =
    if eq_ignore_ascii_case destination remote_target
    then err (bad_request (text "handoff destination must not be the remote sender"))
    else ok tt

abbrev pub action_of :
    MailboxConfig
    → Text
    → Text
    → Text
    → ThreadMessage
    → Result MailError Text
    → Result MailError OutboundAction
action_of mailbox destination remote_target uuid latest (err e) = err e
action_of mailbox destination remote_target uuid latest (ok body) = ok (record {
  kind = forward;
  recipients = destination ∷ [];
  subject = latest.subject;
  body = body;
  html_body = none;
  reason = text "thread handed off for manual handling";
  reply_to = some remote_target;
  message_id = some (outbound_message_id mailbox uuid);
  in_reply_to = latest.message_id;
  references = with_reference latest.references latest.message_id;
})

abbrev pub action_for :
    MailboxConfig
    → ThreadContext
    → Text
    → Text
    → Text
    → Option ThreadMessage
    → Result MailError OutboundAction
action_for mailbox context destination remote_target uuid none =
    err (build (text "thread handoff has no inbound message"))
action_for mailbox context destination remote_target uuid (some latest) =
    action_of mailbox destination remote_target uuid latest (thread_handoff_body context)

unfoldable pub handoff_action :
    MailboxConfig → ThreadContext → Text → Text → Text → Result MailError OutboundAction
unfolding latest_inbound
handoff_action mailbox context destination remote_target uuid =
    action_for mailbox context destination remote_target uuid (latest_inbound context.messages)

abbrev pub event_level : String → LogLevel
event_level status = if status == "sent" then info else error

abbrev pub id_or_empty : Option Text → Text
id_or_empty none = []
id_or_empty (some id) = id

-- A result that may be an error: `m?` and what follows.
abbrev pub A : Type 0 → Type 0 → Type 0
A W R = Action WebCall W (Result ApiError R)

module _ {W R S : Type 0} where
  abbrev pub proceed : (R → A W S) → Result ApiError R → A W S
  proceed f (ok a) = f a
  proceed f (err e) = pure (err e)

  unfoldable pub try : A W R → (R → A W S) → A W S
  try m f = m >>= proceed f

abbrev pub stored : {R : Type 0} → Result StoreError R → Result ApiError R
stored (ok a) = ok a
stored (err e) = err (from_storage e)

abbrev pub built : {R : Type 0} → Result MailError R → Result ApiError R
built (ok a) = ok a
built (err e) = err (from_mail_build e)

module _ {W R : Type 0} where
  -- One call of the store, with its error as one of the interface.
  unfoldable pub ask : (Result StoreError R → WebCall) → Operation W StoreError R → A W R
  unfolding from_storage
  ask note run = call note run >>= λ answer. pure (stored answer)
