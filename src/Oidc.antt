-- ===== src/Oidc.antt =====
-- oidc/: the authorization server's own types, its clients and its token endpoint.
pub mod Model
pub mod Reply
pub mod Client
pub mod Connector
pub mod Binding
pub mod Token
pub mod Grants
pub mod Callback
pub mod Authorize
pub mod UserCode
pub mod Subject
pub mod DeviceAuthorization
pub mod Mac
pub mod Session
pub mod DeviceUi
pub mod UserInfo
