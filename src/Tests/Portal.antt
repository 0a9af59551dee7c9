-- ===== src/Tests/Portal.antt =====
-- The theorems about handoffs from the portal, on the store in memory.
use ai_memmail.Prelude.{Bool, true, false, none, ◌≡◌, refl, All, any}
use ai_memmail.Prelude.Result.{ok}
use ai_memmail.Text.{Text, byte_len, Text_eq, text}
use ai_memmail.Mail.{mail_error_text}
use ai_memmail.Mail.Forwarding.{handoff_body_max_bytes, handoff_header}
use ai_memmail.Storage.Memory.{
  MemoryProcessingStore, active_thread_handoff, begin_thread_handoff_delivery,
  finish_thread_handoff_delivery,
}
use ai_memmail.Worker.Action.{◌>>=◌}
use ai_memmail.Web.Handoff.{HandoffServices, HandoffRequest, WebCall, mailed}
use ai_memmail.Web.Handoff.Create.{create_handoff}
use ai_memmail.Web.Handoff.Recipients.{Handed, create_handoff-IsHandedOff}
use ai_memmail.Tests.Samples.{sample_parser, sample_config, empty_store}
use ai_memmail.Tests.Mails.{sample_thread}

-- The portal over the store in memory, with one run and its thread.
abbrev portal : HandoffServices
portal = record {
  World = MemoryProcessingStore;
  parser = sample_parser;
  parse_mailbox = λ s. ok s;
  connect = λ s. (ok tt, s);
  thread_handoff_source = λ run_id s. (
    ok (record {
      run_id = run_id;
      mailbox_id = text "support";
      thread_id = text "t1";
      uid_validity = 7;
      uid = 42;
      subject = text "Question";
      status = text "send_failed";
      safety_category = none;
      inbound_body_truncated = false;
    }),
    s,
  );
  validate_thread_handoff_ready = λ mailbox_id thread_id s. (ok tt, s);
  latest_thread_remote_target = λ mailbox_id thread_id s. (ok (text "ann@example.com"), s);
  load_thread_context_by_id = λ mailbox thread_id s. (ok sample_thread, s);
  begin_thread_handoff_delivery =
      λ d s. let (delivery, t) = begin_thread_handoff_delivery d s in (ok delivery, t);
  finish_thread_handoff_delivery = λ mailbox_id thread_id request_id status error s.
      (ok tt, finish_thread_handoff_delivery mailbox_id thread_id request_id status error s);
  active_thread_handoff =
      λ mailbox_id thread_id s. (ok (active_thread_handoff mailbox_id thread_id s), s);
  insert_action_log = λ event s. (ok tt, s);
  send = λ smtp action s. (ok tt, s);
  new_uuid = λ s. (text "u1", s);
}

abbrev to_kim : HandoffRequest
to_kim = record { request_id = text "r1"; destination = text " kim@home.example " }

abbrev is_mailed : WebCall → Bool
is_mailed (mailed action answer) = true
is_mailed _ = false

handoff_is_mailed :
    any is_mailed
      (create_handoff portal sample_config (ok tt) (text "run-1") to_kim empty_store).calls
    ≡ true
unfolding create_handoff ◌>>=◌ text ai_memmail.Mail.Forwarding.thread_handoff_body
    ai_memmail.Mail.Forwarding.handoff_loop ai_memmail.Mail.Forwarding.handoff_body_max_bytes
    ai_memmail.Text.byte_len ai_memmail.Mail.Forwarding.handoff_header
    ai_memmail.Mail.Forwarding.handoff_entry ai_memmail.Text.decimal begin_thread_handoff_delivery
handoff_is_mailed = refl

create_handoff-IsHandedOff_example :
    All
      (Handed portal sample_config (text " kim@home.example "))
      (create_handoff portal sample_config (ok tt) (text "run-1") to_kim empty_store).calls
create_handoff-IsHandedOff_example =
    create_handoff-IsHandedOff portal sample_config (ok tt) (text "run-1") to_kim empty_store
