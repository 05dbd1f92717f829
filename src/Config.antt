-- ===== src/Config.antt =====
-- The configuration file and its editing over the web: xiaoai-agent/src/web/config_store.rs.
pub mod Yaml
pub mod Secret
pub mod Update
pub mod Validate
pub mod Store
pub mod Restart
