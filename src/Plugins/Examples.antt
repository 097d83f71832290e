-- ===== src/Plugins/Examples.antt =====
-- The theorems on single plugins at concrete packets.
use handfast.Base.{String, false, none, [], ◌∷◌, ◌++◌, ◌≡◌, refl, lookup}
use handfast.Json.{Value, Items, object, string, number, float, null, cons, nil, field, end}
use handfast.Protocol.Types.{type_systemvolume}
use handfast.Protocol.Packet.{Packet, new}
use handfast.Plugins.Reply.{silent}
use handfast.Plugins.Media.{system_volume_handle}
use handfast.Plugins.Media.Laws.{IsPercentage, system_volume_handle-IsPercentage}
use handfast.Plugins.Commands.{Table, synced, usable, collect}
use handfast.Plugins.Commands.Laws.{last_named, synced-lookup}
use handfast.Plugins.Share.{url, text, share_handle, send_url, send_text}
use handfast.Plugins.Share.RoundTrip.{share_handle-send}

abbrev packet : String → Value → Packet
packet ptype body = (new 0 ptype body).0

-- 99.75, which rounds to 100
abbrev loud : Packet
loud = packet type_systemvolume (object (field "volume" (number (float false 399 2)) end))

system_volume_handle-IsPercentage_example : IsPercentage (system_volume_handle none loud 3).0
system_volume_handle-IsPercentage_example = system_volume_handle-IsPercentage none loud 3 tt

abbrev commands : Table
commands = ("lock", "loginctl lock-session") ∷ []

abbrev entry : String → String → Value
entry name command = object (field "name" (string name) (field "command" (string command) end))

abbrev entries : Items
entries = cons (entry "a" "one") (cons null (cons (entry "a" "two") nil))

synced-lookup_example : lookup "a" (synced commands entries) ≡ last_named "a" (usable entries)
unfolding collect usable
synced-lookup_example = synced-lookup commands entries "a" refl

share_handle-send_example :
    share_handle
      (share_handle [] (send_url "https://example.com" 0).0 3).0
      (send_text "hello" (send_url "https://example.com" 0).1).0
      4
    ≡ (([] ++ url "https://example.com" ∷ []) ++ text "hello" ∷ [], silent 4)
share_handle-send_example = share_handle-send "https://example.com" "hello" [] 0 3 4 refl refl
