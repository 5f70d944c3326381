-- ===== src/Qos.antt =====
-- The quality of service of a session's flows: internal/util/qos_convert.go and
-- internal/context/qos_flow.go.
pub mod BitRate
pub mod Flow
mod Examples
