-- ===== src/TestClient.antt =====
-- TestClient: a console client of the server.
pub mod Manager
pub mod Requests
pub mod Responses
pub mod Names
pub mod Network
pub mod Session
pub mod Tests
pub mod Consistency
pub mod Users
pub mod Loop
pub mod Texts
pub mod Answering
pub mod Main
pub mod Sending
pub mod Receiving
pub mod Collecting
pub mod Reconnecting
pub mod Calls
pub mod RoundTrips
pub mod EndToEnd
pub mod ReplyCalls
pub mod Replies
