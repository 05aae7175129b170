-- ===== src/Server.antt =====
-- multiThreadedWebServer: the server.
pub mod Request
pub mod Schedule
pub mod Queue
pub mod Threads
pub mod Response
pub mod Receive
pub mod Client
pub mod Choice
pub mod Uri
pub mod UriParse
pub mod Exchange
pub mod Cgi
pub mod Answer
mod Tests
