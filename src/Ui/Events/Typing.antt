-- ===== src/Ui/Events/Typing.antt =====
-- ui/src/ui_app.cpp: a command that is typed.
use exn_gs.Common.{◌≡◌, true, false, List, [], ◌∷◌, ◌++◌, Text, codes, text_eq}
use exn_gs.Ui.{UiApp}
use exn_gs.Ui.Keys.{character}
use exn_gs.Ui.Events.{Event, key}

-- The keys of a text: the input component appends each character to what it has.
abbrev pub typing : Text → Text → List Event
typing input [] = []
typing input (c ∷ cs) = key (character c) (input ++ c ∷ []) ∷ typing (input ++ c ∷ []) cs

-- The command bar is open, with that text.
abbrev opened : UiApp → Text → UiApp
opened u input = record u { help_mode = false; cmd_mode = true; cmd_input = input }

-- The interface is connected to its daemon, and neither the help nor the command bar is open. What a
-- command bar that was closed by Esc has left of its text is `cmd_input`.
abbrev pub idle : UiApp → UiApp
idle u = record u { help_mode = false; cmd_mode = false; daemon_connected = true }

-- A text that is none of the interface's own commands.
abbrev pub IsForDaemon : Text → Type 0
IsForDaemon command =
    (text_eq command (codes "HK_ENABLE") ≡ false)
    × (text_eq command (codes "HK_DISABLE") ≡ false)
    × (text_eq command (codes "HK_REQ") ≡ false)
