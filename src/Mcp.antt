-- ===== src/Mcp.antt =====
-- The MCP layer.
pub mod ResponseLease
pub mod Tests
