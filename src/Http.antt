-- ===== src/Http.antt =====
-- misc/http: the request parser, the router, the response writer and the connection of the HTTP
-- front end.
pub mod Request
pub mod Parse
pub mod Route
pub mod Worker
pub mod Conn
