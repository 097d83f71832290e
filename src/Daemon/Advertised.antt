-- ===== src/Daemon/Advertised.antt =====
-- crates/daemon/src/main.rs, build_self_identity: the identity that the daemon advertises. A `BTreeSet` is a sorted list.
pub mod Served
use handfast.Base.{ℕ, String, Option, none, some, List, [], ◌∷◌, map, str_eq, if◌then◌else◌}
use handfast.Protocol.Types.{proto_version}
use handfast.Device.State.{Identity, Store, kv_get}
use handfast.Device.Snapshot.{text_le}
use handfast.Plugins.Meta.{PluginMeta}
use handfast.Plugins.Registry.{Plugin, meta, registry}

-- `BTreeSet::insert`
unfoldable pub set_insert : String → List String → List String
set_insert x [] = x ∷ []
set_insert x (y ∷ ys) =
    let rest = set_insert x ys in
    if str_eq x y then y ∷ ys else if text_le x y then x ∷ y ∷ ys else y ∷ rest

-- `BTreeSet::extend`
unfoldable pub set_extend : List String → List String → List String
unfolding set_insert
set_extend [] set = set
set_extend (x ∷ xs) set = set_extend xs (set_insert x set)

-- The loop over the factories, for one of the two lists.
unfoldable pub collected : (PluginMeta → List String) → List PluginMeta → List String → List String
unfolding set_extend
collected types [] set = set
collected types (m ∷ ms) set = collected types ms (set_extend (types m) set)

unfoldable pub build_self_identity : String → String → ℕ → Identity
unfolding collected meta
build_self_identity device_id name tcp_port = record {
  device_id = device_id;
  name = name;
  device_type = "desktop";
  protocol_version = proto_version;
  incoming = collected (λ m. m.incoming) (map meta registry) [];
  outgoing = collected (λ m. m.outgoing) (map meta registry) [];
  tcp_source_port = tcp_port;
}
