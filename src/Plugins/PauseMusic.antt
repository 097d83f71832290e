-- ===== src/Plugins/PauseMusic.antt =====
-- crates/plugins/src/pause_music.rs: the players that are known, and those that were paused. A set is
-- its elements in the order of their arrival, and is only read sorted.
use handfast.Base.{ℕ, String, Option, none, some, List, [], ◌∷◌, if◌then◌else◌, str_eq, not}
use Prim.Native.Nat.{Ordering}
use Prim.Native.String.{compare}
use handfast.Json.{
  Value, Items, nil, cons, object, string, field, end, get, get_str, as_array, ◌>>=◌,
}
use handfast.Protocol.Types.{type_mpris, type_mpris_request}
use handfast.Protocol.Packet.{Packet, new}
use handfast.Plugins.Reply.{Reply, Handled, silent}

pub record PauseMusicPlugin : Type 0 where
  pub known_players : List String
  pub paused_players : List String

-- `HashSet::insert`
unfoldable pub add : String → List String → List String
add s [] = s ∷ []
add s (t ∷ ts) = if str_eq t s then t ∷ ts else t ∷ add s ts

-- `sort_unstable` on strings
unfoldable pub place : String → List String → List String
place s [] = s ∷ []
place s (t ∷ ts) =
    let rest = place s ts in elim (compare s t) [ Ordering.gt ↦ t ∷ rest | _ ↦ s ∷ t ∷ ts ]

unfoldable pub sorted : List String → List String
unfolding place
sorted [] = []
sorted (s ∷ ss) = place s (sorted ss)

-- `transport_request`, for one player after the other.
unfoldable pub transport_requests : String → List String → ℕ → Reply
unfolding new
transport_requests action [] counter = silent counter
transport_requests action (player ∷ ps) counter =
    let (p, counter') =
      new counter type_mpris_request
        (object (field "player" (string player) (field "action" (string action) end))) in
    let rest = transport_requests action ps counter' in
    record { packets = p ∷ rest.packets; counter = rest.counter }

unfoldable pub add_all : List String → List String → List String
unfolding add
add_all [] set = set
add_all (s ∷ ss) set = add_all ss (add s set)

unfoldable pub pause_all : PauseMusicPlugin → ℕ → Handled PauseMusicPlugin
unfolding sorted add_all transport_requests
pause_all s counter = (
  record s { paused_players = add_all (sorted s.known_players) s.paused_players },
  transport_requests "Pause" (sorted s.known_players) counter,
)

unfoldable pub resume_all : PauseMusicPlugin → ℕ → Handled PauseMusicPlugin
unfolding sorted transport_requests
resume_all s counter =
    (record s { paused_players = [] }, transport_requests "Play" (sorted s.paused_players) counter)

unfoldable pub remember_player : String → PauseMusicPlugin → PauseMusicPlugin
unfolding add
remember_player name s =
    if str_eq name "" then s else record s { known_players = add name s.known_players }

unfoldable pub remember : Option String → PauseMusicPlugin → PauseMusicPlugin
unfolding remember_player
remember none s = s
remember (some name) s = remember_player name s

unfoldable pub remember_entries : Items → PauseMusicPlugin → PauseMusicPlugin
unfolding get_str remember
remember_entries nil s = s
remember_entries (cons entry rest) s = remember_entries rest (remember (get_str "name" entry) s)

unfoldable pub learn_players : Value → PauseMusicPlugin → PauseMusicPlugin
unfolding get as_array remember_entries remember get_str
learn_players body s = remember (get_str "player" body) (elim (get "playerList" body >>= as_array) [
  | none ↦ s
  | some entries ↦ remember_entries entries s
])

unfoldable pub pause_music_handle : PauseMusicPlugin → Packet → ℕ → Handled PauseMusicPlugin
unfolding learn_players
pause_music_handle s p counter =
    if not (str_eq p.ptype type_mpris)
    then (s, silent counter)
    else (learn_players p.body s, silent counter)
