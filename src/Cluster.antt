-- ===== src/Cluster.antt =====
-- packages/application/src/cluster-service.ts and the tables of nodes and certificates in
-- packages/adapters/src/sqlite-repository.ts: the nodes of the cluster.
pub mod Record
pub mod Nodes
pub mod Certificates
pub mod Rotation
pub mod Service
pub mod Trust
pub mod Ending
pub mod Revoked
pub mod Revoking
pub mod Activating
pub mod Routing
pub mod Placement
pub mod Choosing
pub mod Placing
pub mod Enrollment
pub mod Enrolling
pub mod OtherTokens
pub mod Joining
