-- ===== src/Plugins/Battery/Laws.antt =====
-- What the battery plugin promises: levels are percentages, recorded and reported.
use handfast.Base.{
  ℕ, min, String, Bool, false, some, ◌≡◌, refl, ap, ◌∙◌, arith, Assoc, lookup, lookup-insert,
  str_eq, str_eq_iff,
}
use handfast.Json.{Value, get_u64, get_bool, unwrap_or}
use handfast.Plugins.Battery.{
  BatteryState, BatteryPlugin, reported, record_remote, mirror, report_body,
}

reported_level :
    (now : ℕ) (body : Value) (raw : ℕ)
    → get_u64 "currentCharge" body ≡ some raw
    → reported now body
      ≡ some (record {
        level = min raw 100;
        charging = unwrap_or (get_bool "isCharging" body) false;
        reported_at = now;
      })
unfolding reported
reported_level now body raw g = rw (g, reported) refl

-- A report with a level reaches the plugin's state and, for a plugin that is bound to a device, the
-- cache under that device's id, capped at 100; the entries of the other devices stay.
pub record_remote-cached :
    (now : ℕ) (b : BatteryPlugin) (cache : Assoc BatteryState) (body : Value) (id other : String)
    (raw : ℕ)
    → b.device_id ≡ some id
    → get_u64 "currentCharge" body ≡ some raw
    → str_eq id other ≡ false
    → (s : BatteryState) × (s.level ≡ min raw 100)
      × ((record_remote now (b, cache) body).0.last ≡ some s)
      × (lookup id (record_remote now (b, cache) body).1 ≡ some s)
      × (lookup other (record_remote now (b, cache) body).1 ≡ lookup other cache)
unfolding record_remote mirror
record_remote-cached now b cache body id other raw d g n =
    let s : BatteryState = record {
      level = min raw 100;
      charging = unwrap_or (get_bool "isCharging" body) false;
      reported_at = now;
    } in
    let e : reported now body ≡ some s = reported_level now body raw g in
    (
      s,
      refl,
      rw (e, record_remote) refl,
      rw (e, record_remote, d) (lookup-insert id id s cache ∙ rw ((str_eq_iff id id).1 refl) refl),
      rw (e, record_remote, d) (lookup-insert id other s cache ∙ rw n refl),
    )

-- What a report says is what the receiver records: a level of at most 100 and the charging flag.
pub reported-report_body :
    (now level : ℕ) (charging : Bool)
    → reported now (report_body level charging)
      ≡ some (record { level = min level 100; charging = charging; reported_at = now })
unfolding reported report_body
reported-report_body now level charging =
    ap (λ l. some (record { level = l; charging = charging; reported_at = now })) (omega arith)
