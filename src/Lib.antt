-- ===== src/Lib.antt =====
-- ai-memmail: a server that polls mailboxes, lets a model decide about each new message, and
-- answers, forwards or drops it. This library models the server crate (crates/server/src).
--
-- How the parts interact. The configuration (Config) is loaded and validated before each run. A
-- run takes the enabled mailboxes one by one, synchronizes the sent mail of each, fetches its
-- unseen mail and keeps what its accepted conditions let in. The worker takes a message (Mail),
-- claims it in the store (Storage), checks its sender and scans its content (Safety), loads its
-- thread, hands it on if the thread was handed off, classifies it (Classification), asks the
-- model what to do (Ai), lets the model review a mail that is to go out, sends it, sets the
-- status of the message and marks it as seen.
--
-- Files and code, paths from crates/server/src:
--   Prelude            shared names: lists, tests, results, association lists, integers
--   Text               texts as lists of code points, with the operations of Rust's `str` in use
--   Paths              paths as std::path reads them on Unix
--   HtmlSanitizer      html_sanitizer.rs; Rendering compares it with mail/signature.rs
--   Config             config.rs, the data types; Config/Validation the checks, with Valid what they
--                      accept; Config/Redaction redacted and preserve_redacted_secrets, Names which
--                      names are secret;
--                      Config/Saving load, save and sanitized_for_save
--   Mail               mail.rs and mail/threading.rs: messages and actions; Mail/Actions
--                      validate_outbound_action; Mail/Forwarding the bodies of forwards and
--                      handoffs; Mail/Parser reply_recipient; Mail/Signature mail/signature.rs;
--                      Mail/Conditions the accepted conditions; Mail/Composed mail/composed.rs;
--                      Mail/Imap the searches and the fetches of unseen mail and, in Sent, of
--                      sent mail in mail_external.rs
--   Safety             safety.rs; Safety/Senders sender_is_banned
--   Classification     classification.rs
--   Ai                 ai.rs; Ai/Routing ai/routing.rs; Ai/Drafts ai/payloads.rs
--   Storage            storage.rs and storage/value_helpers.rs; Storage/Memory, Labels and Rules
--                      storage/memory_store.rs
--   Worker             worker.rs and worker/: Events processing.rs, Steps step_timeout.rs, History
--                      history.rs, Outbound outbound.rs, Handoff handoff.rs, Classify
--                      classification.rs, Decide and Process process.rs and thread_context.rs
--   Worker/Plans       poll_plans and next_poll_delay of worker.rs
--   Worker/Polling     sent_sync.rs, process_mailbox and run_once_with_store, over the record Polling
--   Worker/Protocol    the order of the calls for one message as a state machine; Counts tests on
--                      calls, Following which calls stand behind and in front of which
--   Worker/Effects     which mails and which requests to the model a message leads to
--   Web/Handoff        web/handoff.rs: a thread is handed off from the portal; Create its handler
--   Tests              sample values, runs and the theorems at concrete inputs
--
-- State and effects. A service answers from a world that it may change with each call; the
-- worker is an action that gives its result, the world that it leaves and the calls that it
-- made. The traits ProcessingStore, MailTransport, DecisionEngine and ActionLogger, the clock
-- and the drawing of UUIDs are the fields of one record, Services, about which nothing is
-- assumed: each may answer anything. Tests/Samples fills it with the store in memory. The
-- handler of handoffs has a record of its own, HandoffServices, which Tests/Portal fills, and
-- takes the answer of require_auth as an argument; the fetches of mail read a session, which
-- answers the same question always alike.
--
-- Choices. The check of the sender has no effect, so the claim that both its branches begin with
-- stands in front of it. The UUID of a handoff's message id is drawn before its body is built,
-- also where that fails. An event has no duration and a scan no confidence, since nothing reads
-- them. Locks are never poisoned. A request to the model stands in front of its heartbeats,
-- though the runtime may let a heartbeat fail before the request is made: more calls than the
-- code makes. What is said of requests to the store or the server holds whatever they answer,
-- errors included. Unsigned fields are numbers, signed ones (priorities, times) integers,
-- without overflow: the code adds to none of them but the counters of identifiers. The
-- heartbeats of a request and its timeout are chosen by the runtime, a finite number of ticks
-- for each request; no other loop needs fuel, and decimal numerals get one digit more than a
-- number can have. An error of the store is the text that it prints.
--
-- A path, a file and a map of a configuration are a text, a text and a list of keys with values;
-- the keys of a BTreeMap are distinct, which theorems that need it assume. An error of a library
-- is the text that it prints.
--
-- Not modelled: the PostgreSQL store and its SQL, the sessions of IMAP, SMTP and HTTP, the web
-- portal other than handoffs, the parsing of mails (mailparse), the matching of regular
-- expressions (regex), the cleaning of HTML (ammonia with email_html_builder, html2text), YAML
-- and JSON, the reading of prompts, and the endless loop around the runs. They are libraries and
-- services outside the code, or stand around what is modelled.
pub mod HtmlSanitizer
pub mod Web
pub mod Paths
pub mod Prelude
pub mod Text
pub mod Config
pub mod Mail
pub mod Safety
pub mod Classification
pub mod Ai
pub mod Storage
pub mod Worker
pub mod Tests
