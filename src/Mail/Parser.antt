-- ===== src/Mail/Parser.antt =====
-- What crates/server/src asks of the `mailparse` library, as a parameter, and `reply_recipient` of
-- mail.rs, which uses it.
use ai_memmail.Prelude.{Option, none, some, List, if◌then◌else◌, is_empty}
use ai_memmail.Text.{Text, trim}

-- mailparse::MailAddr: one address, or the addresses of a named group.
pub data MailAddr : Type 0 where
  single : Text → MailAddr
  group : List Text → MailAddr

pub record MailParser : Type 0 where
  -- addrparse; `none` stands for its error
  pub addrparse : Text → Option (List MailAddr)
  -- MailAddrList::extract_single_info, the address of its result
  pub extract_single_info : List MailAddr → Option Text

abbrev parsed_recipient : MailParser → Text → Option (List MailAddr) → Option Text
parsed_recipient parser from none = none
parsed_recipient parser from (some addresses) = parser.extract_single_info addresses

abbrev recipient_or : Text → Option Text → Text
recipient_or from none = trim from
recipient_or from (some address) =
    let trimmed = trim address in if is_empty trimmed then trim from else trimmed

unfoldable pub reply_recipient : MailParser → Text → Text
reply_recipient parser from =
    recipient_or from (parsed_recipient parser from (parser.addrparse from))
