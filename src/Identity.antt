-- ===== src/Identity.antt =====
-- The accounts of internal/control/sqlite/store.go: who a token speaks for and what it may do.
pub mod Model
pub mod Tables
pub mod Statements
pub mod Text
pub mod Secrets
mod RoundTrip
pub mod Glob
mod GlobMatches
mod GlobLoop
pub mod Users
pub mod Images
pub mod Logins
pub mod Devices
pub mod Tokens
pub mod Trusts
pub mod Listings
mod Among
mod Visibility
mod Rules
pub mod Evolution
mod Advances
mod Codes
mod Methods
mod SecretMethods
mod Exchange
mod Safety
mod Spent
mod Sessions
mod Workflows
mod Privileges
mod Unprivileged
mod Examples
pub mod History
