-- ===== src/Oauth2.antt =====
-- internal/oauth2: the requests that the endpoints parse, and the errors they answer.
pub mod Request
pub mod Tokenrequest
pub mod Authrequest
