-- ===== src/Tests/Live.antt =====
-- A channel whose publisher is replaced.
use vrrelay.Prelude.{
  String, true, false, ◌&&◌, Option, none, some, [], ◌∷◌, str_eq, any, ◌≡◌, ◌⊎◌, inl, refl, eq_iff,
}
use vrrelay.Prelude.Maps.{get, set}
use vrrelay.Prelude.Sorting.{sort}
use vrrelay.Repository.{Versioned, compare_and_set}
use vrrelay.Live.Record.{PublisherState, LiveChannel, Channels, Db}
use vrrelay.Live.Creation.{Request, new_channel, select_origin, create}
use vrrelay.Live.Capacity.{IsAnswered, create-IsAnswered}
use vrrelay.Live.Channels.{Limits, list_channels, write_channel}
use vrrelay.Live.Service.{
  after_write, rewrite_from, rewrite_read, rewrite, replacing, replace_publisher, may_claim,
  promoted, claiming, claim_slot, same_hash,
}
use vrrelay.Live.Access.{
  Access, is_internal, with_ingest, supplied_hash, publish_to, authorize_publish, authorize,
}
use vrrelay.Live.Writing.{IsSteady, quiet}
use vrrelay.Live.Claims.{primary, IsTaken, claim_slot-excludes, replace_publisher-supersedes}
use vrrelay.Live.Authorizing.{Admitted, authorize-Admitted}

abbrev channel : PublisherState → Option String → LiveChannel
channel state replacement = record {
  id = "c";
  owner_id = none;
  name = "Live";
  path = "live-1";
  ingest_path = none;
  origin_node_id = none;
  region = none;
  normalization_profile_id = none;
  normalize = false;
  publisher_state = state;
  publisher_updated_at = none;
  publish_token_hash = "h1";
  replacement_token_hash = replacement;
  replacement_requested_at = none;
  created_at = 0;
}

abbrev channels : PublisherState → Channels
channels state = ("c", record { value = channel state none; revision = 1 }) ∷ []

steady : (id : String) → IsSteady id quiet
steady id n u row e = rw e (inl refl)

claim_slot-excludes_example :
    (claim_slot quiet "c" "h2" 6
      (claim_slot quiet "c" "h1" 5 (channels PublisherState.offline)).0).1
    ≡ false
unfolding claim_slot rewrite rewrite_read rewrite_from may_claim claiming promoted after_write
    write_channel compare_and_set get set
claim_slot-excludes_example =
    claim_slot-excludes quiet quiet "c" "h1" "h2" 5 6 (channels PublisherState.offline) (steady "c")
      refl (λ e. cc (e)) (λ n u k. k)

abbrev issued : Versioned LiveChannel
issued = record {
  value = record (channel PublisherState.online (some "h2")) { replacement_requested_at = some 5 };
  revision = 2;
}

abbrev replaced : Channels
replaced = (replace_publisher quiet "c" "h2" 5 (channels PublisherState.online)).0

replace_publisher-supersedes_example :
    ((claim_slot quiet "c" "h1" 6 replaced).1 ≡ false)
    × ((claim_slot quiet "c" "h2" 6 replaced).1 ≡ true)
    × (primary (get "c" (claim_slot quiet "c" "h2" 6 replaced).0) ≡ some "h2")
    × IsTaken "c" (claim_slot quiet "c" "h2" 6 replaced).0
unfolding replace_publisher rewrite rewrite_read rewrite_from replacing after_write write_channel
    compare_and_set get set
replace_publisher-supersedes_example =
    replace_publisher-supersedes quiet quiet "c" "h2" "h1" 5 6 (channels PublisherState.online)
      issued (steady "c") (λ n u k. k) (λ e. cc (e)) (λ e. cc ((eq_iff "h1" "h2").1 e))
      (λ e. cc ((eq_iff "h1" "h2").1 e)) refl

abbrev access : Access
access = record {
  action = "publish";
  path = "live-1";
  protocol = some "rtmp";
  user = some "vrrelay-publish";
  password = some "h1";
  token = none;
}

authorize-Admitted_example :
    ((is_internal true access ≡ true)
      × (any
            (λ c. c.normalize && str_eq c.path "live-1")
            (list_channels (channels PublisherState.offline))
          ≡ true)
      × ((authorize (λ s. s) true quiet "r" access 5 (channels PublisherState.offline)).0
          ≡ channels PublisherState.offline))
    ⊎ ((same_hash "vrrelay-publish" access.user ≡ true)
        × Admitted
            (supplied_hash (λ s. s) access)
            "live-1"
            (channels PublisherState.offline)
            (authorize (λ s. s) true quiet "r" access 5 (channels PublisherState.offline)).0)
unfolding authorize authorize_publish is_internal with_ingest supplied_hash publish_to list_channels
    sort claim_slot rewrite rewrite_read rewrite_from may_claim claiming after_write write_channel
    compare_and_set get set
authorize-Admitted_example =
    authorize-Admitted quiet steady 5 (channels PublisherState.offline) (λ s. s) true "r" access
      refl refl

abbrev request : Request
request = record {
  id = "d";
  name = "Second";
  path = "live-2";
  ingest_path = "live-2-ingest";
  owner_id = some "u";
  preferred_region = none;
  normalize = true;
  token_hash = "h3";
}

abbrev limits : Limits
limits = record { max_total = 2; max_per_owner = 1 }

abbrev tables : Db
tables = record { channels = channels PublisherState.offline; users = "u" ∷ []; playing = [] }

create-IsAnswered_example :
    IsAnswered tables
      (new_channel request (select_origin none []) 7)
      limits
      (some "u")
      (create request limits [] 7 tables).0
      (create request limits [] 7 tables).1
create-IsAnswered_example = create-IsAnswered request limits [] 7 tables
