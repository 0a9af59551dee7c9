-- ===== src/Web/Handoff/Create.antt =====
-- `create_handoff`, `handoff_summary` and `log_handoff_event` of web/handoff.rs. Whether the request
-- is authorized is an argument: the answer of `require_auth` in web.rs.
use ai_memmail.Prelude.{String, Option, none, some, ◌++◌, find, if◌then◌else◌, ◌==◌, String_eq}
use ai_memmail.Prelude.Result.{Result, ok, err}
use ai_memmail.Text.{Text, Text_eq, text}
use ai_memmail.Config.{MailboxConfig, AppConfig}
use ai_memmail.Mail.{OutboundAction, MailError, mail_error_text}
use ai_memmail.Mail.Parser.{reply_recipient}
use ai_memmail.Storage.{ThreadHandoff, ThreadHandoffDelivery, NewThreadHandoffDelivery}
use ai_memmail.Worker.Action.{pure, call, draw, ◌>>=◌}
use ai_memmail.Web.Handoff.{
  ApiError, bad_request, ThreadHandoffSource, HandoffRequest, HandoffServices, store_read,
  event_stored, begun, mailed, closed, validate_handoff_destination, validate_handoff_target,
  handoff_action, event_level, id_or_empty, A, try, built, ask, from_mail_build,
}

pub record ThreadHandoffSummary : Type 0 where
  pub state : String
  pub destination : Text
  pub remote_target : Text
  pub last_error : Option Text
  pub updated_at : String

abbrev pub Summary : Type 0
Summary = Option ThreadHandoffSummary

abbrev pub summary_of : ThreadHandoff → ThreadHandoffSummary
summary_of handoff = record {
  state = handoff.state;
  destination = handoff.destination;
  remote_target = handoff.remote_target;
  last_error = handoff.last_error;
  updated_at = handoff.updated_at;
}

abbrev pub summary_found : Option ThreadHandoff → Summary
summary_found none = none
summary_found (some handoff) = some (summary_of handoff)

abbrev pub mailbox_found : Text → Option MailboxConfig → Result ApiError MailboxConfig
mailbox_found id (some mailbox) = ok mailbox
mailbox_found id none =
    err (bad_request (text "mailbox " ++ (id ++ text " is no longer configured")))

unfoldable pub find_mailbox : AppConfig → Text → Result ApiError MailboxConfig
find_mailbox config id =
    mailbox_found id (find (λ (mailbox : MailboxConfig). mailbox.id == id) config.mailboxes)

module _ (x : HandoffServices) where
  abbrev pub H : Type 0 → Type 0
  H R = A x.World R

  unfoldable pub handoff_summary : ThreadHandoffSource → H Summary
  unfolding try ask
  handoff_summary source =
      try (ask (λ _. store_read) (x.active_thread_handoff source.mailbox_id source.thread_id))
        (λ handoff. pure (ok (summary_found handoff)))

  unfoldable pub log_handoff_event :
      ThreadHandoffSource → String → Text → Option Text → H (Unit {0})
  unfolding ask
  log_handoff_event source status status_text detail =
      ask (λ _. event_stored)
        (x.insert_action_log (record {
          level = event_level status;
          run_id = source.run_id;
          mailbox_id = some source.mailbox_id;
          message_uid_validity = some source.uid_validity;
          message_uid = some source.uid;
          action = text "thread_handoff";
          status = status_text;
          detail = detail;
        }))

  abbrev pub finish : ThreadHandoffSource → Text → String → Option Text → H (Unit {0})
  finish source request_id status detail =
      ask (λ _. closed status)
        (x.finish_thread_handoff_delivery source.mailbox_id source.thread_id request_id status
          detail)

  -- What follows the answer of the transport.
  unfoldable pub sent_answer :
      ThreadHandoffSource → Text → Text → Result MailError (Unit {0}) → H Summary
  unfolding try ask handoff_summary log_handoff_event mail_error_text
  sent_answer source request_id destination (ok _) =
      try (finish source request_id "sent" none) (λ _.
        try
          (log_handoff_event source "sent" (text "sent")
            (some (text "destination=" ++ destination)))
          (λ _. handoff_summary source))
  sent_answer source request_id destination (err e) =
      try (finish source request_id "failed" (some (mail_error_text e))) (λ _.
        try (log_handoff_event source "failed" (text "failed") (some (mail_error_text e)))
          (λ _. pure (err (record { status = 502; message = mail_error_text e }))))

  abbrev pub delivered :
      ThreadHandoffSource
      → MailboxConfig
      → Text
      → Text
      → OutboundAction
      → ThreadHandoffDelivery
      → H Summary
  delivered source mailbox request_id destination action delivery =
      if delivery.status == "sent"
      then handoff_summary source
      else (call (mailed action) (x.send mailbox.smtp action)
          >>= sent_answer source request_id destination)

  abbrev pub begin_delivery :
      ThreadHandoffSource → MailboxConfig → Text → Text → Text → OutboundAction → H Summary
  begin_delivery source mailbox request_id destination remote_target action =
      let delivery : NewThreadHandoffDelivery = record {
        request_id = request_id;
        mailbox_id = source.mailbox_id;
        thread_id = source.thread_id;
        source_run_id = some source.run_id;
        destination = destination;
        remote_target = remote_target;
        outbound_message_id = id_or_empty action.message_id;
      } in
      try (ask (λ _. begun delivery) (x.begin_thread_handoff_delivery delivery))
        (delivered source mailbox request_id destination action)

  -- From the target of the thread on.
  unfoldable pub hand_off : ThreadHandoffSource → MailboxConfig → Text → Text → Text → H Summary
  unfolding try ask handoff_summary sent_answer validate_handoff_target handoff_action
      from_mail_build
  hand_off source mailbox request_id destination remote_target =
      try (pure (validate_handoff_target destination remote_target)) (λ _.
        try (ask (λ _. store_read) (x.load_thread_context_by_id mailbox source.thread_id))
          (λ context. draw x.new_uuid >>= λ uuid.
            try (pure (built (handoff_action mailbox context destination remote_target uuid)))
              (begin_delivery source mailbox request_id destination remote_target)))

  unfoldable pub create_handoff :
      AppConfig → Result ApiError (Unit {0}) → Text → HandoffRequest → H Summary
  unfolding try ask find_mailbox validate_handoff_destination hand_off reply_recipient
  create_handoff config authorized run_id request = try (pure authorized) (λ _.
      try (ask (λ _. store_read) x.connect) (λ _.
        try (ask (λ _. store_read) (x.thread_handoff_source run_id)) (λ source.
          try (pure (find_mailbox config source.mailbox_id)) (λ mailbox.
            try
              (pure
                (validate_handoff_destination x.parser x.parse_mailbox mailbox request.destination))
              (λ destination.
                try
                  (ask (λ _. store_read)
                    (x.validate_thread_handoff_ready source.mailbox_id source.thread_id))
                  (λ _.
                    try
                      (ask (λ _. store_read)
                        (x.latest_thread_remote_target source.mailbox_id source.thread_id))
                      (λ target.
                        hand_off source mailbox request.request_id destination
                          (reply_recipient x.parser target))))))))
