-- ===== src/Session.antt =====
-- ls_autobahn.h and ls_autobahn.cpp: the session of a WAMP client, which the server and the feed
-- handlers publish, subscribe and call through.
pub mod Buffer
pub mod State
pub mod Branch
pub mod Packing
pub mod Requests
pub mod Checks
pub mod Registers
pub mod Calls
pub mod Handlers
pub mod Receive
pub mod Kept
pub mod Run
pub mod Stopped
pub mod Errors
pub mod Overloads
pub mod Bounds
pub mod Rounds
pub mod Ends
pub mod Frames
pub mod Subscriptions
pub mod Procedures
pub mod Results
pub mod Closing
