-- ===== src/Tests/Network.antt =====
-- A host with one private address.
use vrrelay.Prelude.{
  String, true, false, Option, none, some, List, [], ◌∷◌, str_eq, if◌then◌else◌, refl,
}
use vrrelay.Network.Address.{
  Address, v4, mapped, is_private, is_private_v4, is_blocked, private_own, blocked_own,
}
use vrrelay.Network.Target.{
  http, Url, Target, url_refusal, check_first, check_rest, check_addresses, as_target,
  resolve_names, addresses_of, resolve_checked, resolve_target, permit, validate_checked,
  validate_url,
}
use vrrelay.Network.Safety.{IsSafe, validate_url-IsSafe}

abbrev read_address : String → Option Address
read_address s = if str_eq s "10.0.0.5" then some (v4 10 0 0 5) else none

abbrev name_service : String → Option (List String)
name_service s = some ("10.0.0.5" ∷ [])

abbrev url : Url
url = record {
  protocol = http;
  has_credentials = false;
  has_fragment = false;
  has_query = false;
  hostname = "jellyfin";
}

abbrev pinned : Target
pinned = record { address = v4 10 0 0 5; private_network = true }

validate_url-IsSafe_example : IsSafe read_address name_service false url pinned
unfolding validate_url url_refusal validate_checked resolve_target resolve_checked addresses_of
    resolve_names check_addresses check_first check_rest as_target permit is_private is_blocked
    mapped is_private_v4 private_own blocked_own
validate_url-IsSafe_example = validate_url-IsSafe read_address name_service false url pinned refl
