-- ===== src/Oauth.antt =====
-- src/mcp_postgres/oauth: the OAuth authorization layer. Instants are numbers of ticks, `second` of
-- them in a second, so that `int(...)` rounds down. Random tokens are arguments of the operations.
pub mod Table
pub mod Model
pub mod Store
pub mod Provider
pub mod Login
pub mod Gate
mod Tests
