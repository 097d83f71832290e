-- ===== src/Plugins/Registry/Laws.antt =====
-- What holds of the plugins behind the dispatch of the device manager.
use handfast.Base.{ℕ, String, false, Option, List, [], ◌∷◌, map, ◌≡◌, refl, sym, subst, if_cases}
use handfast.Json.{Value}
use handfast.Protocol.Types.{type_battery_request}
use handfast.Protocol.Packet.{Packet}
use handfast.Device.State.{Identity, contains}
use handfast.Device.Actor.{dispatch_one, dispatch_all}
use handfast.Plugins.Meta.{PluginMeta}
use handfast.Plugins.Battery.{BatteryState}
use handfast.Plugins.Registry.{
  Plugin, meta, handle, plugin_api, registry, battery_plugin, stub, find_my_phone_plugin,
  mpris_plugin, notifications_plugin, pause_music_plugin, ping_plugin, run_commands_plugin,
  share_plugin, system_volume_plugin, telephony_plugin,
}

-- No plugin is given packets of this type.
abbrev pub NotAdvertised : String → List PluginMeta → Type 0
NotAdvertised ptype [] = Unit
NotAdvertised ptype (m ∷ ms) = (contains ptype m.incoming ≡ false) × NotAdvertised ptype ms

module _ (now : ℕ) (probed : Option BatteryState) (parse_identity : Value → Option Identity) where
  handle-meta :
      (p : Plugin) (packet : Packet) (c : ℕ) → meta (handle now probed p packet c).0 ≡ meta p
  unfolding meta handle
  handle-meta (battery_plugin s) packet c = refl
  handle-meta (stub m) packet c = refl
  handle-meta (find_my_phone_plugin s) packet c = refl
  handle-meta (mpris_plugin s) packet c = refl
  handle-meta (notifications_plugin s) packet c = refl
  handle-meta (pause_music_plugin s) packet c = refl
  handle-meta (ping_plugin s) packet c = refl
  handle-meta (run_commands_plugin s) packet c = refl
  handle-meta (share_plugin s) packet c = refl
  handle-meta (system_volume_plugin s) packet c = refl
  handle-meta (telephony_plugin s) packet c = refl

  dispatch_one-meta :
      (p : Plugin) (packet : Packet) (c : ℕ)
      → meta (dispatch_one (plugin_api now probed parse_identity) packet c p).0 ≡ meta p
  unfolding dispatch_one plugin_api
  dispatch_one-meta p packet c =
      if_cases (λ (r : Plugin × List Packet × ℕ). meta r.0 ≡ meta p)
        (contains packet.ptype (meta p).incoming) _ _ (λ _. handle-meta p packet c) (λ _. refl)

  -- No packet changes which plugins a device has, their order, or the types that each is given.
  pub dispatch_all-meta :
      (packet : Packet) (c : ℕ) (ps : List Plugin)
      → map meta (dispatch_all (plugin_api now probed parse_identity) packet c ps).0 ≡ map meta ps
  unfolding dispatch_all
  dispatch_all-meta packet c [] = refl
  dispatch_all-meta packet c (p ∷ ps) =
      rw
        (
          dispatch_one-meta p packet c,
          dispatch_all-meta packet
              (dispatch_one (plugin_api now probed parse_identity) packet c p).2 ps,
        )
        refl

  skipped :
      (p : Plugin) (packet : Packet) (c : ℕ)
      → contains packet.ptype (meta p).incoming ≡ false
      → dispatch_one (plugin_api now probed parse_identity) packet c p ≡ (p, [], c)
  unfolding dispatch_one plugin_api
  skipped p packet c n = rw n refl

  -- A packet of a type that no plugin advertises changes nothing, and is not answered.
  pub dispatch_all-silent :
      (packet : Packet) (c : ℕ) (ps : List Plugin)
      → NotAdvertised packet.ptype (map meta ps)
      → dispatch_all (plugin_api now probed parse_identity) packet c ps ≡ (ps, [], c)
  unfolding dispatch_all
  dispatch_all-silent packet c [] n = refl
  dispatch_all-silent packet c (p ∷ ps) n =
      rw (skipped p packet c n.0, dispatch_all-silent packet c ps n.1) refl

  battery_request_NotAdvertised : NotAdvertised type_battery_request (map meta registry)
  unfolding contains meta
  battery_request_NotAdvertised = (
    refl,
    (
      refl,
      (
        refl,
        (
          refl,
          (
            refl,
            (
              refl,
              (
                refl,
                (refl, (refl, (refl, (refl, (refl, (refl, (refl, (refl, (refl, (refl, tt)))))))))),
              ),
            ),
          ),
        ),
      ),
    ),
  )

  -- A battery request is never answered: with the plugins of the registry, whatever their states,
  -- the dispatch gives it to none of them, as the battery plugin does not advertise the type.
  pub battery_request_unanswered :
      (packet : Packet) (c : ℕ) (ps : List Plugin)
      → packet.ptype ≡ type_battery_request
      → map meta ps ≡ map meta registry
      → dispatch_all (plugin_api now probed parse_identity) packet c ps ≡ (ps, [], c)
  battery_request_unanswered packet c ps t same = dispatch_all-silent packet c ps (
      subst (λ ms. NotAdvertised packet.ptype ms) (sym same)
        (subst (λ ty. NotAdvertised ty (map meta registry)) (sym t) battery_request_NotAdvertised))
