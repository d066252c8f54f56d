-- ===== src/Live/Access.antt =====
-- `authorizeMediaMtx` of packages/application/src/live-service.ts: who may publish and read. The hash of
-- a token (packages/application/src/service-helpers.ts) is an argument.
use vrrelay.Prelude.{
  ℕ, String, Bool, false, not, ◌&&◌, ◌||◌, Option, none, some, List, [], ◌∷◌, str_eq, any,
  if◌then◌else◌, or_else,
}
use vrrelay.Live.Record.{LiveChannel, Channels, ingest}
use vrrelay.Live.Channels.{list_channels}
use vrrelay.Live.Service.{Others, same_hash, is_given, claim_slot}

-- What the media server asks.
pub record Access : Type 0 where
  pub action : String
  pub path : String
  pub protocol : Option String
  pub user : Option String
  pub password : Option String
  pub token : Option String

-- The media server's own reading and publishing over the private listener, if that is allowed.
unfoldable pub is_internal : Bool → Access → Bool
is_internal allowed a =
    allowed
    && same_hash "rtsp" a.protocol
    && not (is_given a.user)
    && not (is_given a.password)
    && not (is_given a.token)

unfoldable pub may_read : Bool → String → Access → List LiveChannel → Bool
unfolding is_internal
may_read allowed read_token a cs =
    if is_internal allowed a
    then any (λ c. c.normalize && same_hash a.path c.ingest_path) cs
    else same_hash "vrrelay-read" a.user
      && (same_hash read_token a.password || same_hash read_token a.token)

unfoldable pub with_ingest : String → List LiveChannel → Option LiveChannel
with_ingest path [] = none
with_ingest path (c ∷ cs) = if str_eq (ingest c) path then some c else with_ingest path cs

unfoldable pub supplied_hash : (String → String) → Access → String
supplied_hash hash a =
    let supplied = or_else a.password (or_else a.token "") in
    if str_eq supplied "" then "" else hash supplied

unfoldable pub publish_to : Others → String → ℕ → Option LiveChannel → Channels → Channels × Bool
publish_to others hash now none t = (t, false)
publish_to others hash now (some c) t =
    if str_eq hash ""
      || (not (str_eq hash c.publish_token_hash) && not (same_hash hash c.replacement_token_hash))
    then (t, false)
    else claim_slot others c.id hash now t

unfoldable pub authorize_publish :
    (String → String) → Bool → Others → Access → ℕ → Channels → Channels × Bool
unfolding is_internal publish_to
authorize_publish hash allowed others a now t =
    let cs = list_channels t in
    if is_internal allowed a
    then (t, any (λ c. c.normalize && str_eq c.path a.path) cs)
    else if not (same_hash "vrrelay-publish" a.user)
    then (t, false)
    else publish_to others (supplied_hash hash a) now (with_ingest a.path cs) t

unfoldable pub authorize :
    (String → String) → Bool → Others → String → Access → ℕ → Channels → Channels × Bool
unfolding authorize_publish
authorize hash allowed others read_token a now t =
    if str_eq a.action "read" || str_eq a.action "playback"
    then (t, may_read allowed read_token a (list_channels t))
    else if not (str_eq a.action "publish")
    then (t, false)
    else authorize_publish hash allowed others a now t
