-- ===== src/Irc.antt =====
-- src/irc/: the IRC client library, one module per file, and the events of src/irc.h.
pub mod Channel
pub mod Queue
pub mod Events
pub mod Parse
pub mod Client
pub mod Handler
pub mod Loop
pub mod Network
