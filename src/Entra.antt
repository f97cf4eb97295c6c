-- ===== src/Entra.antt =====
-- internal/entra: the Microsoft Entra ID emulation.
pub mod Types
pub mod Guid
pub mod Lookup
pub mod Rule
pub mod Errors
pub mod Graphconfig
pub mod Normalize
pub mod Wellformed
pub mod Store
pub mod Consents
pub mod Claims
pub mod Handler
pub mod Authorize
pub mod Keys
pub mod Verify
pub mod Appcreds
pub mod Token
pub mod Bearer
pub mod Directory
pub mod Adminconsent
pub mod Graph
pub mod Filter
pub mod Odata
pub mod Admin
pub mod Server
mod Tests
mod Sessions
