-- ===== src/DataPath.antt =====
-- Data paths: internal/context/datapath.go, with `GenerateDataPath` of
-- internal/context/user_plane_information.go.
pub mod Chain
pub mod Tunnel
pub mod Forwarding
pub mod Quality
