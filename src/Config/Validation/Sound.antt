-- ===== src/Config/Validation/Sound.antt =====
-- Each check of `validate` passes exactly when what it is about is in order.
use ai_memmail.Prelude.{
  ℕ, Bool, true, not, ◌||◌, Option, none, some, List, [], ◌≡◌, ◌≢◌, ◌↔◌, ◌⊎◌, arith, is_empty, ◌==◌,
  ℕ_eq, ◌<◌,
}
use ai_memmail.Prelude.Result.{ok}
use ai_memmail.Text.{Text, Text_eq, text}
use ai_memmail.Config.{LoggingConfig, MailboxConfig}
use ai_memmail.Config.Errors.{is_blank}
use ai_memmail.Config.Validation.{
  validate_required, validate_port, validate_enabled_mailbox_connection, is_folder,
  validate_database, validate_logging, is_level, is_format,
}
use ai_memmail.Config.Validation.Valid.{
  IsFilled, IsFilledIfGiven, IsConnected, IsDatabase, IsLogging,
}
use ai_memmail.Config.Validation.Loops.{ensure_lem, then_iff}

pub is_blank_iff : (value : Text) → (not (is_blank value) ≡ true) ↔ IsFilled value
unfolding is_blank
is_blank_iff value = ground arith

pub positive_iff : (n : ℕ) → (not (n == 0) ≡ true) ↔ (0 < n)
positive_iff n = ground arith

pub is_empty_iff : {A : Type 0} (xs : List A) → (not (is_empty xs) ≡ true) ↔ (xs ≢ [])
is_empty_iff xs = ground arith

pub validate_required_iff :
    (value field : Text) → (validate_required value field ≡ ok tt) ↔ IsFilled value
unfolding validate_required
validate_required_iff value field = ensure_lem _ (is_blank_iff value)

pub validate_port_iff : (port : ℕ) (field : Text) → (validate_port port field ≡ ok tt) ↔ (0 < port)
unfolding validate_port
validate_port_iff port field = ensure_lem _ (positive_iff port)

pub is_folder_iff : (o : Option Text) → (is_folder o ≡ true) ↔ IsFilledIfGiven o
is_folder_iff none = ground arith
is_folder_iff (some folder) = is_blank_iff folder

pub validate_enabled_mailbox_connection_iff :
    (mailbox : MailboxConfig)
    → (validate_enabled_mailbox_connection mailbox ≡ ok tt) ↔ IsConnected mailbox
unfolding validate_enabled_mailbox_connection
validate_enabled_mailbox_connection_iff mailbox =
    then_iff (validate_required_iff mailbox.address _) (
      then_iff (validate_required_iff mailbox.imap.host _) (
        then_iff (validate_port_iff mailbox.imap.port _) (
          then_iff (validate_required_iff mailbox.imap.username _) (
            then_iff (validate_required_iff mailbox.imap.password _) (
              then_iff (validate_required_iff mailbox.imap.folder _) (
                then_iff (ensure_lem _ (is_folder_iff mailbox.imap.sent_folder)) (
                  then_iff (validate_required_iff mailbox.smtp.host _) (
                    then_iff (validate_port_iff mailbox.smtp.port _) (
                      then_iff (validate_required_iff mailbox.smtp.username _) (
                        then_iff (validate_required_iff mailbox.smtp.password _)
                          (validate_required_iff mailbox.smtp.from _)))))))))))

pub validate_database_iff :
    (database : _) → (validate_database database ≡ ok tt) ↔ IsDatabase database
unfolding validate_database
validate_database_iff database = then_iff (validate_required_iff database.host _) (
    then_iff (ensure_lem _ (positive_iff database.port)) (
      then_iff (validate_required_iff database.username _) (
        then_iff (validate_required_iff database.password _)
          (validate_required_iff database.database _))))

pub or_iff :
    {P Q : Type 0} {a b : Bool} → (a ≡ true) ↔ P → (b ≡ true) ↔ Q → ((a || b) ≡ true) ↔ (P ⊎ Q)
or_iff f g = ground arith

is_iff : (a b : Text) → ((a == b) ≡ true) ↔ (a ≡ b)
is_iff = Text_eq.beq_iff

level_iff :
    (level : Text)
    → (is_level level ≡ true) ↔ (
        (level ≡ text "debug")
        ⊎ (level ≡ text "info")
        ⊎ (level ≡ text "warn")
        ⊎ (level ≡ text "error"))
level_iff level = or_iff (is_iff level (text "debug")) (
    or_iff (is_iff level (text "info"))
      (or_iff (is_iff level (text "warn")) (is_iff level (text "error"))))

format_iff :
    (format : Text)
    → (is_format format ≡ true) ↔ ((format ≡ text "json") ⊎ (format ≡ text "pretty"))
format_iff format = or_iff (is_iff format (text "json")) (is_iff format (text "pretty"))

pub validate_logging_iff :
    (logging : LoggingConfig) → (validate_logging logging ≡ ok tt) ↔ IsLogging logging
unfolding validate_logging
validate_logging_iff logging = then_iff (ensure_lem _ (level_iff logging.level)) (
    then_iff (ensure_lem _ (format_iff logging.format))
      (ensure_lem _ (positive_iff logging.retention_days)))
