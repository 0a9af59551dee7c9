-- ===== src/Mail/Forwarding.antt =====
-- `forward_body`, `thread_handoff_body` and `outbound_message_id` of mail.rs.
pub mod Handoff
use ai_memmail.Prelude.{
  ℕ, suc, ◌+◌, ◌*◌, Option, none, some, List, [], ◌∷◌, ◌++◌, ltb, if◌then◌else◌, is_empty,
}
use ai_memmail.Prelude.Result.{Result, ok, err}
use ai_memmail.Text.{Text, text, trim, decimal, join, byte_len, rsplit_once}
use ai_memmail.Config.{MailboxConfig}
use ai_memmail.Mail.{
  InboundMessage, MailError, build, MessageDirection, inbound, outbound, ThreadMessage,
  ThreadContext,
}

-- `as_deref().unwrap_or("(none)")`
abbrev id_or_none : Option Text → Text
id_or_none none = text "(none)"
id_or_none (some id) = id

unfoldable pub forward_body : Text → InboundMessage → Text
forward_body intro message =
    intro
    ++ (text "\n\n---------- Forwarded message ---------\nFrom: "
        ++ (message.metadata.from_addr
            ++ (text "\nSubject: "
                ++ (message.metadata.subject
                    ++ (text "\nMessage-ID: "
                        ++ (id_or_none message.metadata.message_id
                            ++ (text "\nUID: "
                                ++ (decimal message.metadata.uid_validity
                                    ++ (text ":"
                                        ++ (decimal message.metadata.uid
                                            ++ (text "\n\n" ++ message.plain_text)))))))))))

unfoldable pub handoff_body_max_bytes : ℕ
handoff_body_max_bytes = 5 * 1024 * 1024

abbrev direction_text : MessageDirection → Text
direction_text inbound = text "Inbound"
direction_text outbound = text "Outbound"

abbrev joined_or_none : Text → List Text → Text
joined_or_none sep [] = text "(none)"
joined_or_none sep (s ∷ rest) = join sep (s ∷ rest)

-- One message of the transcript; the numbers begin at 1.
unfoldable pub handoff_entry : ℕ → ThreadMessage → Text
handoff_entry index m =
    text "\n\n["
    ++ (decimal (index + 1)
        ++ (text "] "
            ++ (direction_text m.direction
                ++ (text "\nFrom: "
                    ++ (m.from_addr
                        ++ (text "\nTo: "
                            ++ (joined_or_none (text ", ") m.recipients
                                ++ (text "\nSubject: "
                                    ++ (m.subject
                                        ++ (text "\nMessage-ID: "
                                            ++ (id_or_none m.message_id
                                                ++ (text "\nIn-Reply-To: "
                                                    ++ (id_or_none m.in_reply_to
                                                        ++ (text "\nReferences: "
                                                            ++ (joined_or_none (text " ")
                                                            m.references
                                                            ++ (text "\n\n"
                                                            ++ m.authored_text))))))))))))))))

unfoldable pub handoff_header : Text
handoff_header =
    text
      "ai-memmail is handing this conversation to a personal inbox.\nReplying to this email should address the latest remote sender.\n\n---------- Conversation handoff ---------"

-- The loop over the messages.
unfoldable pub handoff_loop : ℕ → Text → List ThreadMessage → Result MailError Text
handoff_loop index body [] = ok body
handoff_loop index body (m ∷ rest) =
    let longer = body ++ handoff_entry index m in
    let later = handoff_loop (suc index) longer rest in
    if m.body_truncated
    then err (build (text "thread handoff cannot use truncated stored message bodies"))
    else if ltb handoff_body_max_bytes (byte_len longer)
    then err (build (text "thread handoff transcript exceeds 5 MiB"))
    else later

unfoldable pub thread_handoff_body : ThreadContext → Result MailError Text
thread_handoff_body context =
    if is_empty context.messages
    then err (build (text "thread handoff requires at least one stored message"))
    else handoff_loop 0 handoff_header context.messages

-- The domain of the sender address, or a fallback.
abbrev domain_of : Option (Text × Text) → Text
domain_of none = text "ai-memmail.local"
domain_of (some (local, domain)) =
    let trimmed = trim domain in if is_empty trimmed then text "ai-memmail.local" else trimmed

-- `uuid` is what `Uuid::new_v4` drew.
unfoldable pub outbound_message_id : MailboxConfig → Text → Text
outbound_message_id mailbox uuid =
    text "<" ++ (uuid ++ (text "@" ++ (domain_of (rsplit_once mailbox.smtp.from b'@') ++ text ">")))
