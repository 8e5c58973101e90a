-- ===== src/Http.antt =====
-- src/http.c and include/http.h: requests, responses, paths and the response cache.
pub mod Handle
pub mod Parse
pub mod Path
pub mod Response
pub mod Cache
pub mod Etag
pub mod Send
pub mod Serve
