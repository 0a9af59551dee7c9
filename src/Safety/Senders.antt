-- ===== src/Safety/Senders.antt =====
-- `sender_is_banned`, over the addresses that `mailparse` finds in the sender's header.
use ai_memmail.Prelude.{
  Bool, false, Option, none, some, List, [], ◌∷◌, ◌++◌, any, if◌then◌else◌, is_empty, ◌==◌,
}
use ai_memmail.Text.{Text, Text_eq, trim, to_ascii_lowercase, split_once}
use ai_memmail.Config.{BannedSenderConfig, BannedSenderKind, email, domain}
use ai_memmail.Mail.Parser.{MailAddr, single, group, MailParser}

abbrev normalized : Text → Text
normalized address = to_ascii_lowercase (trim address)

-- The addresses of one entry that are not empty once they are normalised.
abbrev normalized_nonempty : Text → List Text
normalized_nonempty address = let a = normalized address in if is_empty a then [] else a ∷ []

group_addresses : List Text → List Text
group_addresses [] = []
group_addresses (a ∷ rest) = normalized_nonempty a ++ group_addresses rest

collect_normalized_mailbox_addresses : MailAddr → List Text
unfolding group_addresses
collect_normalized_mailbox_addresses (single a) = normalized_nonempty a
collect_normalized_mailbox_addresses (group addrs) = group_addresses addrs

collected : List MailAddr → List Text
unfolding collect_normalized_mailbox_addresses
collected [] = []
collected (a ∷ rest) = collect_normalized_mailbox_addresses a ++ collected rest

abbrev or_fallback : Text → List Text → List Text
or_fallback fallback [] = fallback ∷ []
or_fallback fallback (a ∷ addresses) = a ∷ addresses

abbrev parsed_addresses : Text → Option (List MailAddr) → List Text
parsed_addresses fallback none = fallback ∷ []
parsed_addresses fallback (some parsed) = or_fallback fallback (collected parsed)

unfoldable pub normalized_mailbox_addresses : MailParser → Text → List Text
unfolding collected
normalized_mailbox_addresses parser sender =
    let fallback = normalized sender in
    if is_empty fallback then [] else parsed_addresses fallback (parser.addrparse sender)

abbrev domain_is : Text → Option (Text × Text) → Bool
domain_is value none = false
domain_is value (some (local, host)) = host == value

ban_matches_kind : BannedSenderKind → Text → List Text → Bool
ban_matches_kind email value addresses = any (λ a. a == value) addresses
ban_matches_kind domain value addresses = any (λ a. domain_is value (split_once a b'@')) addresses

unfoldable pub sender_is_banned : MailParser → Text → List BannedSenderConfig → Bool
unfolding ban_matches_kind
sender_is_banned parser sender bans =
    any
      (λ ban.
        ban_matches_kind ban.kind (normalized ban.value)
          (normalized_mailbox_addresses parser sender))
      bans
