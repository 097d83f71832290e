-- ===== src/Device/Sending/Examples.antt =====
-- A picture from a remote folder, of which a temporary copy was made, is sent to a phone.
use handfast.Base.{◌==◌, true, false, none, some, [], ◌∷◌, ◌≡◌, refl, lookup}
use handfast.Device.State.{DeviceState, Manager, Outbound, fresh}
use handfast.Device.Links.{shell_identity}
use handfast.Device.Sending.{bind, FileMeta, Source, SendEnv, offline, temps, send_file}
use handfast.Device.Sending.Cleaned.{send_file-cleans}
use handfast.Device.Sending.Announced.{IsSent, send_file-announces}

abbrev picture : Source
picture = record { local = "/tmp/copy-7"; file_name = "cat.png"; cleanup = some "/tmp/copy-7" }

abbrev regular : FileMeta
regular = record { is_file = true; len = 70000; modified_ms = 5 }

abbrev env : SendEnv
env = record {
  source = some picture;
  metadata = some regular;
  binds = λ p. p == 1740;
  ephemeral = none;
}

abbrev free : Outbound
free = record { queue = []; closed = false }

abbrev phone : DeviceState Unit
phone = record {
  identity = shell_identity "phone" "Ada's phone" "phone";
  addr = some ("10.0.0.2", 1716);
  live_fingerprint = some "aa";
  pinned_fingerprint = some "aa";
  outbound = some free;
  pending_pair_reply = none;
  plugins = [];
}

abbrev here : Manager Unit
here = record (fresh (record { rows = []; kv = []; faulty = false })) {
  devices = ("phone", phone) ∷ [];
}

abbrev away : Manager Unit
away = record here { devices = ("phone", record phone { outbound = none }) ∷ [] }

send_file-cleans_example :
    ((send_file env "phone" away).1 ≡ temps picture)
    × ((send_file env "phone" away).2.transfers ≡ [])
unfolding send_file fresh lookup
send_file-cleans_example = send_file-cleans env picture "phone" away offline refl tt refl

-- The registry counts from one, so that the first send has the number one.
send_file-announces_example : IsSent env "phone" here 1 (send_file env "phone" here)
unfolding send_file fresh lookup bind
send_file-announces_example = send_file-announces env "phone" here 1 refl
