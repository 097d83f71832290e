-- ===== src/Gui/Examples.antt =====
-- The theorems on the graphical client at concrete inputs: two phones, of which one is chosen and the
-- other is lost.
use handfast.Base.{◌≤◌, String, false, Option, none, some, List, [], ◌∷◌, length, ◌≡◌, refl}
use handfast.Json.{is_some}
use handfast.Ipc.Proto.{ServerEvent}
use handfast.Gui.Model.{PluginToggles}
use handfast.Gui.App.{App, BridgeIn, Message, log_cap, new, selected_device_id}
use handfast.Gui.Update.{update}
use handfast.Gui.Session.{run, selection_kept}
use handfast.Gui.Commands.{update-commands}

abbrev save : PluginToggles → Option String
save _ = none

abbrev steps : List Message
steps =
    Message.event (ServerEvent.device_found "p1" "Ada's phone")
    ∷ Message.event (ServerEvent.device_found "p2" "Bob's phone")
    ∷ Message.device_selected 1
    ∷ Message.event (ServerEvent.device_lost "p1")
    ∷ []

abbrev app : App
app = run save steps (new [])

selected_test : selected_device_id app ≡ some "p2"
unfolding run new selected_device_id
selected_test = refl

selection_kept_example :
    (selected_device_id app ≡ app.selected_id)
    × (is_some app.selected ≡ is_some app.selected_id)
    × (length app.logs ≤ log_cap)
selection_kept_example = selection_kept save [] steps

abbrev online : App
online = record app { bridge = some (record { sent = []; closed = false }) }

update-commands_example :
    (update save (Message.pair_pressed "p2") online).bridge
    ≡ some (record { sent = BridgeIn.pair "p2" ∷ []; closed = false })
update-commands_example = update-commands save (Message.pair_pressed "p2") online
