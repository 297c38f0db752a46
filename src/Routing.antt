-- ===== src/Routing.antt =====
-- The routing controller (pkg/controllers/routing), as far as it is modelled.
pub mod RouteSync
pub mod Bgp
pub mod Vips
pub mod DefinedSets
pub mod PeerSets
pub mod Policies
pub mod Events
pub mod Sample
