-- ===== src/Config.antt =====
-- internal/config: the configuration, and the checks on it. The YAML library's part, lines and texts of
-- messages are left out: a configuration stands as the record that it decodes to.
pub mod Model
pub mod Expand
pub mod Pieces
pub mod Problem
pub mod Rotas
pub mod Steps
pub mod Validate
pub mod Sound
pub mod Reachable
pub mod Registered
pub mod Accepted
