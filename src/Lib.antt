-- ===== src/Lib.antt =====
-- Verification of VRRelay, a relay that transcodes video on demand and serves it in segments.
--
-- A session's video is cut into segments of equal length. When a viewer asks for a segment, the
-- coordinator of the source worker (packages/application/src/vod-producer-coordinator.ts) makes sure
-- that one producer runs for the session near the audience. It holds a lease in the coordination
-- store (packages/adapters/src/local-infrastructure.ts), keeps a durable record with a generation in
-- the repository (packages/adapters/src/sqlite-repository.ts), reads the recent demands of the
-- viewers every second, paces the producer's source by the buffer ahead of the audience
-- (packages/application/src/vod-source-pacing.ts) and stops it when nobody watches or the audience
-- has moved. Segments of other sessions are jobs (packages/application/src/session-jobs.ts) that
-- nodes lease, run, complete, fail and retry. The nodes of the cluster
-- (packages/application/src/cluster-service.ts) are trusted by certificates, report how they are, and are
-- chosen as edges and source workers. Live channels (packages/application/src/live-service.ts) give
-- their slot to one publisher at a time. Administrative operations run between two audit
-- records (apps/relay/src/audited-operation.ts).
--
-- Files:
--   Prelude            lists, maps, sorting and Boolean tests shared by all parts
--   Coordination       the coordination store: Leases (acquire, renew, release), Values (set, get,
--                      delete), Demands (recordSegmentDemand, listSegmentDemands), Viewers
--                      (recordViewer, countViewers); Exclusion, Refinement, Anchors,
--                      Windows and Audience are its proofs
--   Repository         versioned tables: insertion and compare-and-set; Interference is what a
--                      process may rely on when others write; Loop is the repeated optimistic write
--                      of both coordinators, Rounds and Quiet its proofs
--   Producer           the coordinator: Record (VodProducerSchema), Updates (the values written to
--                      the record), Transition (#transition), Recovery (recoverExpired), Watermarks
--                      (buffers, rates, the pacer), Active (ActiveProducer and its methods), Demand
--                      (#dominantDemand), Refresh (#refreshDemand), Admission (#reserveProducer,
--                      #releaseReservation), Start (#startExclusive), Fences (ensure, stop, close
--                      and drain as far as they fence requests off), Retry (#recordFailure,
--                      #retryDelayMs); the other files are proofs about them
--   Jobs               segment jobs: Record (SegmentJobSchema), Writes and Reruns (the methods that
--                      write a record); Lifecycle and Restarting are proofs
--   Cluster            nodes: Record (ClusterNodeSchema and its neighbours), Nodes (the tables of nodes and
--                      certificates), Service (the methods of ClusterService that write a node, and
--                      certificateIsActive), Routing (BuiltinTrafficDirector, list), Placement
--                      (StaticTrafficDirector, previewPlacement), Enrollment (createJoinToken, enroll);
--                      Enrolling, OtherTokens, Joining, Certificates, Rotation, Trust, Ending, Revoked, Revoking,
--                      Activating, Choosing and Placing are proofs
--   Live               live channels: Record (LiveChannelSchema), Channels (their table), Creation (create),
--                      Service (replacePublisher, #claimPublisherSlot, reconcilePublisherPaths, delete),
--                      Access (authorizeMediaMtx); Capacity, Writing, Claims and Authorizing are proofs
--   Network            packages/adapters/src/network-policy.ts: Address (private and blocked addresses),
--                      Target (resolveProviderRequestTarget, validateProviderUrl); Safety is its proofs
--   Cache              packages/application/src/session-cache.ts: Eviction (cleanupExpired on the files that
--                      it finds); Evicting and Cleaning are proofs
--   Relay              the relay process: Audit (auditedOperation), Retention (the sweep of
--                      apps/relay/src/retention-service.ts); Auditing and Retaining are proofs
--   Tests              runs at concrete inputs
--
-- How the code is read:
--   * A time is a natural number of milliseconds, also where the code keeps it as ISO text. An
--     operation reads the clock once, except the periodic check, which is given four readings,
--     and a start, which is given a later one for its clean-up.
--   * A segment lasts a whole number of milliseconds, so quotients of durations are quotients of
--     whole numbers; a rate is a fraction. Tests for values that are not finite fall away.
--     Differences that the code cuts off at 0 are those of the natural numbers; comparisons with a
--     difference that may be negative have the subtrahend on the other side.
--   * A JavaScript Map is an association list in which a key is looked up from the front; a key that
--     is set again keeps its place.
--   * Errors are values: `none`, or an outcome with its reason.
--   * The repository's compare-and-set is one SQL statement and so atomic. What other processes do
--     before the read and between the read and the write of each of the five rounds is an argument,
--     an arbitrary function of the table; the theorems ask of it only what every write
--     of the repository does: rows stay (a channel may be deleted), and a changed row has a higher
--     revision.
--   * A row's key is the identifier in its value. What is SQL text (the revocation of a node's
--     certificates and bindings, counts, deletions) is read as a change of the table; the certificates
--     of a node stand with the latest first.
--   * The score of an edge is a fraction; the code computes it in floating point. The digest of a
--     text, the comparison of names by locale, the lower case of a text and the hash of a token come
--     from outside and are arguments.
--   * The optimistic loop is recursion on the five rounds of the source, so no fuel is added.
--
-- Not modelled: logs, metrics and audit storage; the transcoder, object stores and files; delivery of
-- published messages; the SQL and Lua texts of the other stores; the HTTP server and agents; the
-- signing of certificates; sessions, profiles and providers; the texts of
-- addresses and the normaliser's process; the user interfaces. They are input and output, wiring, or
-- parts with a state of their own that the modelled parts only call.
pub mod Prelude
pub mod Coordination
pub mod Repository
pub mod Producer
pub mod Jobs
pub mod Cluster
pub mod Live
pub mod Cache
pub mod Network
pub mod Relay
mod Tests
