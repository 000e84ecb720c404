-- ===== src/Ui/Keys.antt =====
-- ui/src/ui_app.cpp: the keys, as `CatchEvent` passes them on.
use exn_gs.Common.{
  ℕ, Bool, true, false, not, ◌&&◌, ◌||◌, [], ◌∷◌, ◌++◌, Text, codes, text_eq, ◌==◌, if◌then◌else◌,
}
use exn_gs.App.{uppercase}
use exn_gs.Ui.{UiApp, queues_hk, exits, sends_command, Result, set_notice}

-- The characters of `" \t\r\n"`.
unfoldable pub is_blank : ℕ → Bool
is_blank c = c == 32 || c == 9 || c == 13 || c == 10

unfoldable pub drop_blanks : Text → Text
unfolding is_blank
drop_blanks [] = []
drop_blanks (c ∷ cs) = let rest = drop_blanks cs in if is_blank c then rest else c ∷ cs

-- Up to the last character that is no blank.
unfoldable pub drop_last_blanks : Text → Text
unfolding is_blank
drop_last_blanks [] = []
drop_last_blanks (c ∷ cs) = elim (drop_last_blanks cs) [
  | [] ↦ if is_blank c then [] else c ∷ []
  | d ∷ ds ↦ c ∷ d ∷ ds
]

unfoldable pub trim : Text → Text
unfolding drop_blanks drop_last_blanks
trim value = drop_last_blanks (drop_blanks value)

pub data Key : Type 0 where
  escape return other : Key
  character : ℕ → Key

-- What a command of the input does.
unfoldable pub run_command : UiApp → Text → Result
unfolding set_notice
run_command u command =
    if text_eq command (codes "HK_ENABLE")
    then set_notice (record u { hk_enabled = true }) (codes "periodic System HK enabled")
    else if text_eq command (codes "HK_DISABLE")
    then set_notice (record u { hk_enabled = false }) (codes "periodic System HK disabled")
    else if text_eq command (codes "HK_REQ")
    then if u.daemon_connected && u.device_connected
      then (let (u', outputs) = set_notice u (codes "System HK request queued") in
          (u', queues_hk ∷ outputs))
      else set_notice u (codes "ERROR: HK_REQ requires daemon IPC and device link to be connected")
    else if not u.daemon_connected
    then set_notice u (codes "ERROR: daemon IPC is not connected")
    else (let (u', outputs) = set_notice u (codes "sent daemon command: " ++ command) in
        (u', sends_command command ∷ outputs))

-- `Event::Return` in command mode.
unfoldable pub enter : UiApp → Result
unfolding run_command trim
enter u = elim (uppercase (trim u.cmd_input)) [
  | [] ↦ (u, [])
  | c ∷ cs ↦ let (u', outputs) = run_command u (c ∷ cs) in (record u' { cmd_input = [] }, outputs)
]

-- `edited` is what FTXUI's input component makes of its text with the key.
unfoldable pub on_command_key : UiApp → Key → Text → Result
unfolding enter
on_command_key u escape edited = (record u { cmd_mode = false }, [])
on_command_key u return edited = enter u
on_command_key u other edited = (record u { cmd_input = edited }, [])
on_command_key u (character c) edited = (record u { cmd_input = edited }, [])

unfoldable pub on_help_key : UiApp → Key → Result
on_help_key u escape = (record u { help_mode = false }, [])
on_help_key u (character c) = (if c == b'h' then record u { help_mode = false } else u, [])
on_help_key u return = (u, [])
on_help_key u other = (u, [])

unfoldable pub on_shortcut : UiApp → Key → Result
on_shortcut u escape = (u, exits ∷ [])
on_shortcut u (character c) =
    if c == b'q'
    then (u, exits ∷ [])
    else if c == b'h'
    then (record u { help_mode = true }, [])
    else if c == b'c'
    then (record u { cmd_mode = true }, [])
    else (u, [])
on_shortcut u return = (u, [])
on_shortcut u other = (u, [])

unfoldable pub on_key : UiApp → Key → Text → Result
unfolding on_help_key on_command_key on_shortcut
on_key u key edited =
    if u.help_mode
    then on_help_key u key
    else if u.cmd_mode
    then on_command_key u key edited
    else on_shortcut u key
