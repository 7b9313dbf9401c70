-- ===== src/Api.antt =====
-- The package api: the handlers of the server and its middleware.
pub mod Gin
pub mod Binding
pub mod Reading
pub mod Writing
pub mod Rows
pub mod Account
pub mod Transfer
pub mod Validator
pub mod User
pub mod Session
pub mod Quiet
pub mod Middleware
pub mod Route
pub mod Oauth
pub mod Server
