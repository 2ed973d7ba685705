-- ===== src/Http.antt =====
-- internal/adapters/http: the handlers and the middleware, each a function from a request, the
-- writer of the response and the state of the world to the writer and the state that it leaves.
pub mod Response
pub mod Fold
pub mod Decoding
pub mod JobHandler
pub mod Refusals
pub mod Creating
pub mod ReadBack
pub mod Getting
pub mod Health
pub mod RequestId
pub mod Ui
pub mod Router
pub mod Server
