-- ===== src/Tests/Enrollment.antt =====
-- A join token that is tried three times: the creation fails after it is stored, the retry succeeds,
-- and another request with the same token is refused.
use vrrelay.Prelude.{ℕ, String, none, some, List, [], ◌∷◌}
use vrrelay.Prelude.Maps.{get}
use vrrelay.Cluster.Record.{NodeRole, NodeState}
use vrrelay.Cluster.Enrollment.{
  World, Outside, Fault, works, fails_before, fails_after, create_join_token,
}
use vrrelay.Cluster.Enrolling.{status}
use vrrelay.Cluster.Joining.{Call, certificates, Gives, certificates-Gives}
use vrrelay.Tests.Cluster.{node, empty}

abbrev outside : Outside
outside = record {
  hash = λ s. s;
  sign = λ id csr. some (record { serial_number = id; fingerprint = csr; expires_at = 9000000 });
  lower = λ s. s;
}

abbrev world : World
world =
    create_join_token outside "t" "Edge" (NodeRole.edge ∷ []) "eu" 60 0
      (record { leases = []; claims = []; db = empty })

abbrev request : String → String → Fault → ℕ → Call
request csr id creation now = (
  record {
    token = "t";
    name = "";
    public_url = "https://edge.example";
    internal_url = none;
    capabilities = (node NodeState.online none 0).capabilities;
    csr = csr;
    owner = id;
    fresh_id = id;
    now = now;
    pending_fault = works;
    creation_fault = creation;
    completed_fault = fails_before;
  },
  λ n d. d,
)

abbrev requests : List Call
requests =
    request "csr" "n1" fails_after 5 ∷ request "csr" "n2" works 9 ∷ request "c" "n3" works 10 ∷ []

certificates-Gives_example :
    Gives (status (get "t" world.claims)) (certificates outside "t" requests world)
certificates-Gives_example = certificates-Gives outside "t" requests world
