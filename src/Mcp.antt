-- ===== src/Mcp.antt =====
-- The diagnostics server (mcp-server/).
pub mod Engine
pub mod Handlers
mod Examples
