-- ===== src/Daemon/Handler/Laws.antt =====
-- What the clients can rely on in the daemon's answers.
use mathlib.Core.Option
use handfast.Base.{
  ℕ, ℤ, pos, String, Bool, true, false, inl, inr, ◌⊎◌, Option, none, some, List, [], ◌∷◌, map, ◌≡◌,
  refl, ap, sym, ◌∙◌, arith, if◌then◌else◌, lookup, insert, lookup-insert, str_eq,
}
use handfast.Json.{Value, array}
use handfast.Device.State.{Store}
use handfast.Device.Snapshot.{items}
use handfast.Plugins.Registry.{Plugin, meta, registry}
use handfast.Ipc.Proto.{Request, Response, ok, err, ok_json}
use handfast.Tui.Model.{PluginRow, parse_plugin, parse_plugins, filter_items}
use handfast.Daemon.Handler.{
  World, Outcome, done, failed, handle_request, answer, kv_set, plugin_rows, plugin_key, flag,
}

-- The one code with which a request can be refused.
abbrev pub code_of : Request → Option ℕ
code_of (Request.device_pair _) = some 2001
code_of (Request.device_unpair _) = some 2002
code_of (Request.pairing_answer _ _) = some 2003
code_of (Request.plugin_set_enabled _ _ _) = some 3000
code_of (Request.send_file _ _) = some 4001
code_of (Request.transfer_cancel _) = some 4002
code_of Request.clipboard_get = some 5000
code_of (Request.clipboard_set _) = some 5000
code_of (Request.run_command _ _) = some 6000
code_of (Request.set_volume _) = some 7000
code_of Request.get_volume = some 7001
code_of (Request.share_text _ _) = some 8000
code_of (Request.share_url _ _) = some 8001
code_of (Request.request_battery _) = some 9000
code_of (Request.send_sms _ _ _) = some 9001
code_of _ = none

answer-err :
    {A : Type 0} (code : ℕ) (f : A → Value) (o : Outcome A) {c : ℤ} {text : String}
    → answer code f o ≡ err c text
    → c ≡ pos code
unfolding answer
answer-err code f (done a) e = cc
answer-err code f (failed why) e = cc

kv_set-refused :
    (w : World) (key val : String) (st : Store) {c : ℤ} {text : String}
    → (f : Unit {0} → Value) → answer 3000 f (kv_set w key val st).0 ≡ err c text
    → (kv_set w key val st).1 ≡ st
unfolding kv_set answer
kv_set-refused w key val st f e = ground arith

-- The requests that the manager carries out.
abbrev pub asks_manager : Request → Bool
asks_manager Request.device_list = true
asks_manager (Request.device_pair _) = true
asks_manager (Request.device_unpair _) = true
asks_manager (Request.pairing_answer _ _) = true
asks_manager (Request.send_file _ _) = true
asks_manager Request.transfer_list = true
asks_manager (Request.transfer_cancel _) = true
asks_manager _ = false

refused :
    {A : Type 0} (code : ℕ) (f : A → Value) (o : Outcome A) (st st' : Store) {c : ℤ} {text : String}
    → ◌≡◌ {A = Response × Store} (answer code f o, st) (err c text, st')
    → ◌≡◌ {A = Option ℤ} (some (pos code)) (some c)
refused code f o st st' e =
    ap some (sym (answer-err code f o (ap (λ (p : Response × Store). p.0) e)))

answered :
    {A : Type 0} (code : ℕ) (f : A → Value) (o : Outcome A) (st st' : Store) {c : ℤ} {text : String}
    → ◌≡◌ {A = Response × Store} (answer code f o, st) (err c text, st')
    → (◌≡◌ {A = Option ℤ} (some (pos code)) (some c)) × (st' ≡ st)
answered code f o st st' e = (refused code f o st st' e, sym (ap (λ (p : Response × Store). p.1) e))

-- A request that is refused is refused with its own code, which tells which request it was (the two
-- requests for the clipboard share theirs); a request that has no code is never refused. Unless the
-- manager carries it out, a request that is refused has changed nothing in the store: in particular, a
-- setting that could not be written.
pub refusal_code :
    (w : World) (r : Request) (st st' : Store) (c : ℤ) (text : String)
    → handle_request w r st ≡ (err c text, st')
    → (Option.map pos (code_of r) ≡ some c) × ((asks_manager r ≡ true) ⊎ (st' ≡ st))
unfolding handle_request
refusal_code w (Request.device_pair id) st st' c text e =
    (refused 2001 _ _ (w.start_pairing id st).1 st' e, inl refl)
refusal_code w (Request.device_unpair id) st st' c text e =
    (refused 2002 _ _ (w.unpair id st).1 st' e, inl refl)
refusal_code w (Request.pairing_answer id accept) st st' c text e =
    (refused 2003 _ _ (w.pairing_answer id accept st).1 st' e, inl refl)
refusal_code w (Request.plugin_set_enabled id plugin enabled) st st' c text e =
    let key = plugin_key id plugin in
    let val = if enabled then "1" else "0" in
    let (own, same) = answered 3000 _ _ (kv_set w key val st).1 st' e in
    (own, inr (same ∙ kv_set-refused w key val st _ (ap (λ (p : Response × Store). p.0) e)))
refusal_code w (Request.send_file id path) st st' c text e =
    (refused 4001 _ _ (w.send_file id path st).1 st' e, inl refl)
refusal_code w (Request.transfer_cancel id) st st' c text e =
    (refused 4002 _ _ (w.transfer_cancel id st).1 st' e, inl refl)
refusal_code w Request.clipboard_get st st' c text e =
    let (own, same) = answered 5000 _ _ st st' e in (own, inr same)
refusal_code w (Request.clipboard_set t) st st' c text e =
    let (own, same) = answered 5000 _ _ st st' e in (own, inr same)
refusal_code w Request.device_list st st' c text e = cc
refusal_code w Request.transfer_list st st' c text e = cc
refusal_code w _ st st' c text e = ground arith

-- How the terminal shows a plugin of the roster: switched off.
abbrev pub shown : Plugin → PluginRow
shown p = record { name = (meta p).name; title = (meta p).title; enabled = false }

parsed_rows : (ps : List Plugin) → filter_items parse_plugin (items (plugin_rows ps)) ≡ map shown ps
unfolding filter_items items plugin_rows parse_plugin
parsed_rows [] = refl
parsed_rows (p ∷ ps) = ap (◌∷◌ (shown p)) (parsed_rows ps)

-- Whatever was set before, the daemon answers a request for the plugins with the roster in its order,
-- from which the terminal reads the name and the title of each plugin, and that it is switched off.
pub plugins_shown_off :
    (w : World) (id : String) (st : Store)
    → (v : Value) × (handle_request w (Request.plugin_list id) st ≡ (ok v, st))
      × (parse_plugins v ≡ map shown registry)
unfolding handle_request parse_plugins
plugins_shown_off w id st = (array (items (plugin_rows registry)), refl, parsed_rows registry)

-- A plugin that is switched is saved, if the database can be written: its key holds the new setting,
-- and no other key and no row has changed.
pub setting_saved :
    (w : World) (id plugin key : String) (enabled : Bool) (st : Store)
    → st.faulty ≡ false
    → (st' : Store) × (handle_request w (Request.plugin_set_enabled id plugin enabled) st
        ≡ (ok_json (flag "saved"), st'))
      × (st'.rows ≡ st.rows)
      × (lookup key st'.kv ≡ (
          if str_eq (plugin_key id plugin) key
          then some (if enabled then "1" else "0")
          else lookup key st.kv))
unfolding handle_request answer kv_set
setting_saved w id plugin key enabled st f = (
  record st { kv = insert (plugin_key id plugin) (if enabled then "1" else "0") st.kv },
  simp (f),
  refl,
  lookup-insert (plugin_key id plugin) key (if enabled then "1" else "0") st.kv,
)
