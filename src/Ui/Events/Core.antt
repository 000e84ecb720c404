-- ===== src/Ui/Events/Core.antt =====
-- ui/src/ui_app.cpp: what the keys leave alone.
use exn_gs.App.{uppercase}
use exn_gs.Protocol.Strings.{Unpacked-cases}
use exn_gs.Common.{
  ℕ, ◌≡◌, refl, Bool, List, [], ◌∷◌, Text, codes, if-elim, inl, inr, Bool-cases, ◌&&◌, ◌⊎◌, text_eq,
  ◌==◌, not, if◌then◌else◌,
}
use exn_gs.Protocol.{unpack_string}
use exn_gs.Ui.{PacketRow, UiApp, Output, Result, set_notice, with_text}
use exn_gs.Ui.Keys.{
  Key, on_key, on_help_key, on_command_key, on_shortcut, enter, run_command, trim, escape, return,
  other, character,
}
use exn_gs.Ui.Events.{sent}

-- What the connections and the packets make of the state.
pub record Core : Type 0 where
  pub daemon_line : Text
  pub device_line : Text
  pub daemon_connected : Bool
  pub device_connected : Bool
  pub tc_sequence : ℕ
  pub tx_rows : List PacketRow
  pub rx_rows : List PacketRow

abbrev pub core : UiApp → Core
core u = record {
  daemon_line = u.daemon_line;
  device_line = u.device_line;
  daemon_connected = u.daemon_connected;
  device_connected = u.device_connected;
  tc_sequence = u.tc_sequence;
  tx_rows = u.tx_rows;
  rx_rows = u.rx_rows;
}

-- It is left as it is, and no packet is sent.
abbrev pub IsQuiet : UiApp → Result → Type 0
IsQuiet u (u', outputs) = (core u' ≡ core u) × (sent outputs ≡ [])

Text-cases : (t : Text) → (t ≡ []) ⊎ ((c : ℕ) × (cs : Text) × (t ≡ c ∷ cs))
Text-cases [] = inl refl
Text-cases (c ∷ cs) = inr (c, cs, refl)

run_command-IsQuiet : (u : UiApp) (text : Text) → IsQuiet u (run_command u text)
unfolding run_command set_notice
run_command-IsQuiet u text = elim (Bool-cases (text_eq text (codes "HK_ENABLE"))) [
  | inl a ↦ rw (a, run_command) (refl, refl)
  | inr a ↦ elim (Bool-cases (text_eq text (codes "HK_DISABLE"))) [
    | inl b ↦ rw (a, b, run_command) (refl, refl)
    | inr b ↦ elim (Bool-cases (text_eq text (codes "HK_REQ"))) [
      | inl c ↦ elim (Bool-cases (u.daemon_connected && u.device_connected)) [
        | inl d ↦ rw (a, b, c, d, run_command) (refl, refl)
        | inr d ↦ rw (a, b, c, d, run_command) (refl, refl)
      ]
      | inr c ↦ elim (Bool-cases (not u.daemon_connected)) [
        | inl d ↦ rw (a, b, c, d, run_command) (refl, refl)
        | inr d ↦ rw (a, b, c, d, run_command) (refl, refl)
      ]
    ]
  ]
]

enter-IsQuiet : (u : UiApp) → IsQuiet u (enter u)
unfolding enter
enter-IsQuiet u = elim (Text-cases (uppercase (trim u.cmd_input))) [
  | inl e ↦ rw (e, enter) (refl, refl)
  | inr (c, cs, e) ↦ rw (e, enter) (run_command-IsQuiet u (c ∷ cs))
]

on_shortcut-IsQuiet : (u : UiApp) (k : Key) → IsQuiet u (on_shortcut u k)
unfolding on_shortcut
on_shortcut-IsQuiet u escape = (refl, refl)
on_shortcut-IsQuiet u return = (refl, refl)
on_shortcut-IsQuiet u other = (refl, refl)
on_shortcut-IsQuiet u (character c) = elim (Bool-cases (c == b'q')) [
  | inl e ↦ rw (e, on_shortcut) (refl, refl)
  | inr e ↦ elim (Bool-cases (c == b'h')) [
    | inl e' ↦ rw (e, e', on_shortcut) (refl, refl)
    | inr e' ↦ elim (Bool-cases (c == b'c')) [
      | inl e'' ↦ rw (e, e', e'', on_shortcut) (refl, refl)
      | inr e'' ↦ rw (e, e', e'', on_shortcut) (refl, refl)
    ]
  ]
]

on_help_key-IsQuiet : (u : UiApp) (k : Key) → IsQuiet u (on_help_key u k)
unfolding on_help_key
on_help_key-IsQuiet u escape = (refl, refl)
on_help_key-IsQuiet u return = (refl, refl)
on_help_key-IsQuiet u other = (refl, refl)
on_help_key-IsQuiet u (character c) = elim (Bool-cases (c == b'h')) [
  | inl e ↦ rw (e, on_help_key) (refl, refl)
  | inr e ↦ rw (e, on_help_key) (refl, refl)
]

on_command_key-IsQuiet :
    (u : UiApp) (k : Key) (edited : Text) → IsQuiet u (on_command_key u k edited)
unfolding on_command_key
on_command_key-IsQuiet u escape edited = (refl, refl)
on_command_key-IsQuiet u return edited = enter-IsQuiet u
on_command_key-IsQuiet u other edited = (refl, refl)
on_command_key-IsQuiet u (character c) edited = (refl, refl)

pub on_key-IsQuiet : (u : UiApp) (k : Key) (edited : Text) → IsQuiet u (on_key u k edited)
unfolding on_key
on_key-IsQuiet u k edited =
    let shortcut : IsQuiet u (if u.cmd_mode then on_command_key u k edited else on_shortcut u k) =
      if-elim (IsQuiet u) u.cmd_mode {x = on_command_key u k edited} {y = on_shortcut u k}
        (on_command_key-IsQuiet u k edited) (on_shortcut-IsQuiet u k) in
    if-elim (IsQuiet u) u.help_mode {x = on_help_key u k} (on_help_key-IsQuiet u k) shortcut

-- What holds for every text of a payload, and where there is none.
pub with_text-elim :
    (P : Result → Type 0) (u : UiApp) (payload : List ℕ) (go : Text → Result)
    → P (u, [])
    → P (u, Output.undefined ∷ [])
    → ((s : Text) → P (go s))
    → P (with_text u payload go)
with_text-elim P u payload go none_there broken there =
    elim (Unpacked-cases (unpack_string payload)) [
      | inl (s, e) ↦ rw (e, with_text) (there s)
      | inr (inl e) ↦ rw (e, with_text) none_there
      | inr (inr e) ↦ rw (e, with_text) broken
    ]
