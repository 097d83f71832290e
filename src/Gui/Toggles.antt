-- ===== src/Gui/Toggles.antt =====
-- The keys under which the switched plugins are remembered.
use Prim.Native.Char.{code}
use Prim.Native.String.{◌++◌}
use Prim.Native.String.append as Clause
use handfast.Base.{String, false, some, ◌==◌, ◌≡◌, refl}
use handfast.Gui.Model.{toggle_key, split_toggle_key}

-- The text has no colon.
abbrev pub NoColon : String → Type 0
NoColon String.[] = Unit
NoColon (String.◌∷◌ c s) = (code c == b':' ≡ false) × NoColon s

at_colon : (plugin : String) → split_toggle_key (":" ++ plugin) ≡ some (String.[], plugin)
unfolding split_toggle_key
at_colon plugin = rw (Clause.cons ":" "" plugin, Clause.nil plugin) refl

-- The key of a plugin of a device is read back as that device and that plugin, if the id of the device
-- has no colon.
pub split-toggle_key :
    (device_id plugin : String)
    → NoColon device_id
    → split_toggle_key (toggle_key device_id plugin) ≡ some (device_id, plugin)
unfolding split_toggle_key toggle_key
split-toggle_key String.[] plugin n = rw (Clause.nil (":" ++ plugin)) (at_colon plugin)
split-toggle_key (String.◌∷◌ c s) plugin n =
    rw (Clause.cons c s (":" ++ plugin), n.0, split-toggle_key s plugin n.1) refl
