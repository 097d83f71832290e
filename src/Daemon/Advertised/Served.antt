-- ===== src/Daemon/Advertised/Served.antt =====
-- What the daemon advertises is what its plugins serve.
use handfast.Base.{
  ℕ, String, Bool, true, false, Option, List, [], ◌∷◌, map, ◌||◌, ◌≡◌, refl, sym, ap, ◌∙◌, str_eq,
  str_eq_iff, if◌then◌else◌, if_cases,
}
use handfast.Json.{Value}
use handfast.Protocol.Packet.{Packet}
use handfast.Device.State.{Identity, contains, supports_incoming}
use handfast.Device.Snapshot.{text_le}
use handfast.Device.Actor.{dispatch_all}
use handfast.Plugins.Meta.{PluginMeta}
use handfast.Plugins.Battery.{BatteryState}
use handfast.Plugins.Registry.{Plugin, meta, registry, plugin_api}
use handfast.Plugins.Registry.Laws.{NotAdvertised, dispatch_all-silent}
use handfast.Daemon.Advertised.{set_insert, set_extend, collected, build_self_identity}

or_swap : (a b c : Bool) → (a || (b || c)) ≡ (b || (a || c))
or_swap true true c = refl
or_swap true false c = refl
or_swap false true c = refl
or_swap false false c = refl

or_same : (a c : Bool) → (a || c) ≡ (a || (a || c))
or_same true c = refl
or_same false c = refl

or_assoc : (a b c : Bool) → (a || (b || c)) ≡ ((a || b) || c)
or_assoc true b c = refl
or_assoc false b c = refl

if_or : (a b : Bool) → (if a then true else b) ≡ (a || b)
if_or true b = refl
if_or false b = refl

contains-cons :
    (t y : String) (ys : List String) → contains t (y ∷ ys) ≡ (str_eq y t || contains t ys)
unfolding contains
contains-cons t y ys = if_or (str_eq y t) (contains t ys)

contains-set_insert :
    (t x : String) (ys : List String) → contains t (set_insert x ys) ≡ (str_eq x t || contains t ys)
unfolding set_insert
contains-set_insert t x [] = contains-cons t x []
contains-set_insert t x (y ∷ ys) =
    let goal : List String → Type 0 = λ zs. contains t zs ≡ (str_eq x t || contains t (y ∷ ys)) in
    if_cases goal (str_eq x y) _ _
      (λ e.
        let same : x ≡ y = (str_eq_iff x y).0 e in
        contains-cons t y ys
        ∙ or_same (str_eq y t) (contains t ys)
        ∙ ap (λ b. str_eq y t || b) (sym (contains-cons t y ys))
        ∙ ap (λ z. str_eq z t || contains t (y ∷ ys)) (sym same))
      (λ _.
        if_cases goal (text_le x y) _ _ (λ _. contains-cons t x (y ∷ ys))
          (λ _.
            contains-cons t y (set_insert x ys)
            ∙ ap (λ b. str_eq y t || b) (contains-set_insert t x ys)
            ∙ or_swap (str_eq y t) (str_eq x t) (contains t ys)
            ∙ ap (λ b. str_eq x t || b) (sym (contains-cons t y ys))))

contains-set_extend :
    (t : String) (xs set : List String)
    → contains t (set_extend xs set) ≡ (contains t xs || contains t set)
unfolding set_extend contains
contains-set_extend t [] set = refl
contains-set_extend t (x ∷ xs) set =
    contains-set_extend t xs (set_insert x set)
    ∙ ap (λ b. contains t xs || b) (contains-set_insert t x set)
    ∙ or_swap (contains t xs) (str_eq x t) (contains t set)
    ∙ or_assoc (str_eq x t) (contains t xs) (contains t set)
    ∙ ap (λ b. b || contains t set) (sym (contains-cons t x xs))

-- Whether a plugin lists the type.
abbrev lists : (PluginMeta → List String) → String → List PluginMeta → Bool
lists types t [] = false
lists types t (m ∷ ms) = contains t (types m) || lists types t ms

contains-collected :
    (types : PluginMeta → List String) (t : String) (ms : List PluginMeta) (set : List String)
    → contains t (collected types ms set) ≡ (lists types t ms || contains t set)
unfolding collected
contains-collected types t [] set = refl
contains-collected types t (m ∷ ms) set =
    contains-collected types t ms (set_extend (types m) set)
    ∙ ap (λ b. lists types t ms || b) (contains-set_extend t (types m) set)
    ∙ or_swap (lists types t ms) (contains t (types m)) (contains t set)
    ∙ or_assoc (contains t (types m)) (lists types t ms) (contains t set)

or_none : (b : Bool) → (b || false) ≡ b
or_none true = refl
or_none false = refl

-- A type is advertised exactly if a plugin lists it.
advertised_lists :
    (device_id name : String) (tcp_port : ℕ) (t : String)
    → supports_incoming (build_self_identity device_id name tcp_port) t
      ≡ lists (λ m. m.incoming) t (map meta registry)
unfolding supports_incoming build_self_identity contains
advertised_lists device_id name tcp_port t =
    contains-collected (λ m. m.incoming) t (map meta registry) [] ∙ or_none _

unlisted :
    (t : String) (ms : List PluginMeta) → lists (λ m. m.incoming) t ms ≡ false → NotAdvertised t ms
unlisted t [] h = tt
unlisted t (m ∷ ms) h =
    (left (contains t m.incoming) _ h, unlisted t ms (right (contains t m.incoming) _ h))
  where
    left : (a b : Bool) → (a || b) ≡ false → a ≡ false
    left false b e = refl
    left true b e = cc

    right : (a b : Bool) → (a || b) ≡ false → b ≡ false
    right false b e = e
    right true b e = cc

-- The plugins serve no packet whose type the daemon does not advertise: the dispatch of a packet of a
-- type that its own identity does not support changes none of the plugins of the roster, whatever their
-- states are, and none of them sends a reply. (The packets of pairing and identity, which the manager
-- handles before it comes to the plugins, are not dispatched.)
pub unadvertised_silent :
    (now : ℕ) (probed : Option BatteryState) (parse_identity : Value → Option Identity)
    (device_id name : String) (tcp_port c : ℕ) (packet : Packet) (ps : List Plugin)
    → map meta ps ≡ map meta registry
    → supports_incoming (build_self_identity device_id name tcp_port) packet.ptype ≡ false
    → dispatch_all (plugin_api now probed parse_identity) packet c ps ≡ (ps, [], c)
unadvertised_silent now probed parse_identity device_id name tcp_port c packet ps same h =
    dispatch_all-silent now probed parse_identity packet c ps (
      unlisted packet.ptype (map meta ps) (
        ap (lists (λ m. m.incoming) packet.ptype) same
        ∙ sym (advertised_lists device_id name tcp_port packet.ptype)
        ∙ h))
