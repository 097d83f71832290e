-- ===== src/Gui/Invariant.antt =====
-- Every message keeps the selection on its card and the log within its bound.
use Prim.Native.String.{◌++◌}
use handfast.Base.{
  ℕ, String, Bool, true, false, Option, none, some, List, [], ◌∷◌, length, ◌≤◌, ◌-◌, ◌≡◌, refl, sym,
  subst, arith, Bool-cases, Option-cases, inl, inr, if_cases, leb, ◌==◌, if◌then◌else◌,
  length-append,
}
use handfast.Json.{◌>>=◌}
use handfast.Ipc.Proto.{ServerEvent, to_text}
use handfast.Gui.Model.{
  DeviceCard, PluginToggles, card_state, change_card, remove_card, position_of,
}
use handfast.Gui.App.{
  App, BridgeIn, log_cap, new, push_log, set_banner, dispatch, request, is_id, pop_front,
}
use handfast.Gui.Reducer.{
  finish_pairing, handle_event, announced_card, on_lost, forget, ipc_version, take_target,
  change_target, acknowledged, reverted,
}
use handfast.Gui.Selection.{ids, Points, KeepsId, ids-change, Points-remove, Points-upsert}

pub record IsValid (app : App) : Type 0 where
  pub points : Points (ids app.devices) app.selected app.selected_id
  pub logs_bounded : length app.logs ≤ log_cap

pub new-IsValid : (toggles : PluginToggles) → IsValid (new toggles)
unfolding new
new-IsValid toggles = record { points = tt; logs_bounded = omega arith }

length-pop_front {ℓ} : {A : Type ℓ} (xs : List A) → length (pop_front xs) ≤ length xs - 1
length-pop_front [] = omega arith
length-pop_front (x ∷ xs) = omega arith

pub push_log-IsValid : (line : String) (app : App) → IsValid app → IsValid (push_log line app)
unfolding push_log
push_log-IsValid line app v = record {
  points = v.points;
  logs_bounded =
      let kept = if leb log_cap (length app.logs) then pop_front app.logs else app.logs in
      let below : length kept ≤ 299 = ground (arith, length-pop_front app.logs) in
      omega (arith, length-append kept (line ∷ []));
}

pub set_banner-IsValid : (text : String) (app : App) → IsValid app → IsValid (set_banner text app)
unfolding set_banner
set_banner-IsValid text app v =
    let w = push_log-IsValid ("[error] " ++ text) app v in
    record { points = w.points; logs_bounded = w.logs_bounded }

pub dispatch-IsValid : (c : BridgeIn) (app : App) → IsValid app → IsValid (dispatch c app).0
unfolding dispatch
dispatch-IsValid c app v = ground arith

pub request-IsValid : (c : BridgeIn) (app : App) → IsValid app → IsValid (request c app)
unfolding request
request-IsValid c app v =
    let w = dispatch-IsValid c app v in
    if_cases IsValid (dispatch c app).1 _ _ (λ _. w)
      (λ _. set_banner-IsValid "not connected" (dispatch c app).0 w)

pub changed-IsValid :
    (id : String) (f : DeviceCard → DeviceCard) (app : App)
    → KeepsId f
    → IsValid app
    → IsValid (record app { devices = change_card id f app.devices })
changed-IsValid id f app k v = record {
  points =
      subst (λ (names : List String). Points names app.selected app.selected_id)
        (sym (ids-change id f app.devices k)) v.points;
  logs_bounded = v.logs_bounded;
}

acknowledged-KeepsId : (is_unpair : Bool) → KeepsId (acknowledged is_unpair)
acknowledged-KeepsId true d = refl
acknowledged-KeepsId false d = refl

reverted-KeepsId : (is_unpair : Bool) → KeepsId (reverted is_unpair)
reverted-KeepsId true d = ground arith
reverted-KeepsId false d = ground arith

change_target-IsValid :
    (target : Option String) (f : DeviceCard → DeviceCard) (app : App)
    → KeepsId f
    → IsValid app
    → IsValid (change_target target f app)
unfolding change_target
change_target-IsValid none f app k v = v
change_target-IsValid (some id) f app k v = changed-IsValid id f app k v

take_target-IsValid :
    (is_unpair : Bool) (app : App) → IsValid app → IsValid (take_target is_unpair app).1
unfolding take_target
take_target-IsValid true app v = record { points = v.points; logs_bounded = v.logs_bounded }
take_target-IsValid false app v = record { points = v.points; logs_bounded = v.logs_bounded }

pub finish_pairing-IsValid :
    (result : Option String) (is_unpair : Bool) (app : App)
    → IsValid app
    → IsValid (finish_pairing result is_unpair app)
unfolding finish_pairing
finish_pairing-IsValid none is_unpair app v =
    let w = take_target-IsValid is_unpair app v in
    elim (Option-cases (take_target is_unpair app).0) [
      | inl e ↦ rw (e, finish_pairing) w
      | inr (id, e) ↦
          rw (e, finish_pairing)
            (push_log-IsValid _ _ (
              change_target-IsValid (some id) (acknowledged is_unpair) (take_target is_unpair app).1
                (acknowledged-KeepsId is_unpair) w))
    ]
finish_pairing-IsValid (some why) is_unpair app v = set_banner-IsValid _ _ (
    change_target-IsValid (take_target is_unpair app).0 (reverted is_unpair)
      (take_target is_unpair app).1 (reverted-KeepsId is_unpair)
      (take_target-IsValid is_unpair app v))

synced :
    (lost : String) (ds : List DeviceCard) (selected : Option ℕ) (selected_id : Option String)
    → is_id lost selected_id ≡ false
    → Points (ids ds) selected selected_id
    → Points
        (ids (remove_card lost ds))
        (selected_id >>= λ (id : String). position_of id (remove_card lost ds))
        selected_id
unfolding is_id
synced lost ds selected none n h = tt
synced lost ds selected (some x) n h = Points-remove lost ds selected x n h

forget-IsValid : (id : String) (app : App) → IsValid app → IsValid (forget id app)
unfolding forget
forget-IsValid id app v = elim (Bool-cases (is_id id app.selected_id)) [
  | inl e ↦ rw e (record { points = tt; logs_bounded = v.logs_bounded })
  | inr e ↦
      let p = synced id app.devices app.selected app.selected_id e v.points in
      rw e (record { points = p; logs_bounded = v.logs_bounded })
]

on_lost-IsValid : (id : String) (app : App) → IsValid app → IsValid (on_lost id app)
unfolding on_lost
on_lost-IsValid id app v = push_log-IsValid _ (forget id app) (forget-IsValid id app v)

pub handle_event-IsValid :
    (e : ServerEvent) (app : App) → IsValid app → IsValid (handle_event e app)
unfolding handle_event
handle_event-IsValid (ServerEvent.hello version name pid) app v =
    let greeted : App = record app { daemon_version = some (to_text version) } in
    let w =
      push_log-IsValid
        ("hello: " ++ name ++ " pid " ++ to_text pid ++ " (ipc v" ++ to_text version ++ ")") greeted
        (record { points = v.points; logs_bounded = v.logs_bounded }) in
    if_cases IsValid (version == ipc_version) _ _ (λ _. w) (λ _. push_log-IsValid _ _ w)
handle_event-IsValid (ServerEvent.device_found id name) app v = record {
  points =
      Points-upsert (announced_card id name app.devices) app.devices app.selected app.selected_id
        v.points;
  logs_bounded = v.logs_bounded;
}
handle_event-IsValid (ServerEvent.device_lost id) app v = on_lost-IsValid id app v
handle_event-IsValid (ServerEvent.device_state_changed id state) app v =
    changed-IsValid id (card_state state) app (λ d. refl) v
handle_event-IsValid (ServerEvent.transfer_added id _ direction file_name total) app v =
    push_log-IsValid _ _ (record { points = v.points; logs_bounded = v.logs_bounded })
handle_event-IsValid (ServerEvent.transfer_progress id done total) app v = record {
  points = v.points;
  logs_bounded = v.logs_bounded;
}
handle_event-IsValid (ServerEvent.transfer_finished id) app v =
    push_log-IsValid _ _ (record { points = v.points; logs_bounded = v.logs_bounded })
handle_event-IsValid (ServerEvent.transfer_failed id reason) app v =
    push_log-IsValid _ _ (record { points = v.points; logs_bounded = v.logs_bounded })
handle_event-IsValid (ServerEvent.notification_received id source title body) app v = record {
  points = v.points;
  logs_bounded = v.logs_bounded;
}
handle_event-IsValid (ServerEvent.clipboard_updated text) app v = push_log-IsValid _ app v
handle_event-IsValid (ServerEvent.log_record level msg) app v = push_log-IsValid _ app v
handle_event-IsValid ServerEvent.daemon_shutdown app v =
    set_banner-IsValid _ _ (push_log-IsValid _ app v)
handle_event-IsValid _ app v = v
