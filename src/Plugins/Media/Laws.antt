-- ===== src/Plugins/Media/Laws.antt =====
-- What the media plugins promise: actions, players and volumes.
use handfast.Base.{
  ℕ, zero, ◌≤◌, ◌<◌, ◌+◌, ◌*◌, ◌/◌, ◌^◌, suc, String, true, false, Option, none, some, ◌≡◌, refl,
  inl, inr, arith, leb, str_eq, if_cases, Option-cases, not,
}
use native.Mathlib.Nat.{div-lt_iff_lt-mul}
use handfast.Json.{
  Value, Number, pos_int, neg_int, float, as_object, get_field, as_f64, get_str, ◌>>=◌,
}
use handfast.Protocol.Types.{type_mpris_request, type_systemvolume}
use handfast.Protocol.Packet.{Packet}
use handfast.Plugins.Reply.{Handled, reply_with}
use handfast.Plugins.Media.{
  MprisAction, play, pause, play_pause, stop, next, previous, as_str_action, parse_action, resolve,
  requested_action, handle_mpris_request, ack_body, VolumeState, clamp_round, extract_state,
  observe, system_volume_handle,
}

-- The wire name of each action is read back as that action.
pub parse_action-as_str_action : (a : MprisAction) → parse_action (as_str_action a) ≡ some a
unfolding parse_action as_str_action
parse_action-as_str_action play = refl
parse_action-as_str_action pause = refl
parse_action-as_str_action play_pause = refl
parse_action-as_str_action stop = refl
parse_action-as_str_action next = refl
parse_action-as_str_action previous = refl

pow_pos : (s : ℕ) → 0 < 2 ^ s
pow_pos zero = omega arith
pow_pos (suc s) = let ih : 0 < 2 ^ s = pow_pos s in omega arith

rounded_le : (m p : ℕ) → 0 < p → m < 100 * p → (2 * m + p) / (2 * p) ≤ 100
rounded_le m p h l =
    let q : (2 * m + p) / (2 * p) < 101 =
      (div-lt_iff_lt-mul {k = 2 * p} (omega arith)).1 (omega arith) in
    omega (arith, q)

pub clamp_round-le : (n : Number) → clamp_round n ≤ 100
unfolding clamp_round
clamp_round-le (pos_int n) = omega arith
clamp_round-le (neg_int _) = omega arith
clamp_round-le (float true _ _) = omega arith
clamp_round-le (float false m s) =
    if_cases (λ v. v ≤ 100) (leb (100 * 2 ^ s) m) _ _ (λ _. omega arith)
      (λ h. rounded_le m (2 ^ s) (pow_pos s) (ground (arith, h)))

requested_known :
    (last : Option String) (player known : String) (action : MprisAction) (body : Value)
    → get_str "player" body ≡ some player
    → get_str "action" body ≡ some (as_str_action action)
    → resolve last player ≡ some known
    → requested_action last body ≡ some (known, action)
unfolding requested_action
requested_known last player known action body p a r =
    rw (p, a, parse_action-as_str_action action, r) refl

answered :
    (last : Option String) (known : String) (action : MprisAction) (body : Value) (c : ℕ)
    → requested_action last body ≡ some (known, action)
    → handle_mpris_request last body c
      ≡ (some known, reply_with type_mpris_request (ack_body known action) c)
unfolding handle_mpris_request
answered last known action body c q = rw (q, handle_mpris_request) refl

resolve_plain :
    (last : Option String) (player : String)
    → str_eq player "auto" ≡ false
    → resolve last player ≡ some player
unfolding resolve
resolve_plain last player n = rw n refl

resolve_auto : (last : Option String) → resolve last "auto" ≡ last
unfolding resolve
resolve_auto last = refl

-- The action that was asked for is acknowledged to the player that was asked, and a later request
-- for "auto" goes to that player too.
pub auto_follows :
    (last : Option String) (player : String) (first second : MprisAction) (body auto : Value)
    (c : ℕ)
    → get_str "player" body ≡ some player
    → str_eq player "auto" ≡ false
    → get_str "action" body ≡ some (as_str_action first)
    → get_str "player" auto ≡ some "auto"
    → get_str "action" auto ≡ some (as_str_action second)
    → (handle_mpris_request last body c
        ≡ (some player, reply_with type_mpris_request (ack_body player first) c))
      × (handle_mpris_request (handle_mpris_request last body c).0 auto c
          ≡ (some player, reply_with type_mpris_request (ack_body player second) c))
auto_follows last player first second body auto c p n a p' a' =
    let one =
      answered last player first body c
        (requested_known last player player first body p a (resolve_plain last player n)) in
    (
      one,
      rw one (
          answered (some player) player second auto c (
            requested_known (some player) "auto" player second auto p' a'
              (resolve_auto (some player)))),
    )

extract_state-le : (body : Value) (v : VolumeState) → extract_state body ≡ some v → v.volume ≤ 100
unfolding extract_state
extract_state-le body v e = elim (Option-cases (as_object body)) [
  | inl n ↦ ground (arith, n, e)
  | inr (obj, o) ↦ elim (Option-cases (get_field "volume" obj >>= as_f64)) [
    | inl n ↦ ground (arith, o, n, e)
    | inr (raw, r) ↦ ground (arith, o, r, e, clamp_round-le raw)
  ]
]

-- A recorded volume, if there is one, is a percentage.
abbrev pub IsPercentage : Option VolumeState → Type 0
IsPercentage none = Unit
IsPercentage (some v) = v.volume ≤ 100

-- The recorded volume stays a percentage, whatever packet comes and whatever number it reports.
pub system_volume_handle-IsPercentage :
    (s : Option VolumeState) (p : Packet) (c : ℕ)
    → IsPercentage s
    → IsPercentage (system_volume_handle s p c).0
unfolding system_volume_handle observe
system_volume_handle-IsPercentage s p c h =
    if_cases (λ (r : Handled (Option VolumeState)). IsPercentage r.0)
      (not (str_eq p.ptype type_systemvolume)) _ _ (λ _. h)
      (λ _. elim (Option-cases (extract_state p.body)) [
        | inl n ↦ rw (n, observe) h
        | inr (v, e) ↦ rw (e, observe) (extract_state-le p.body v e)
      ])
