-- ===== src/Layout.antt =====
-- src/components/Graph/layout.ts: the automatic three-tier layout of VPNs, hosts and services.
pub mod Model
pub mod Build
pub mod Blocks
pub mod Filing
pub mod Rounds
pub mod Whole
pub mod Complete
pub mod Edges
pub mod Center
pub mod Spread
pub mod Links
pub mod Everywhere
pub mod Tests
