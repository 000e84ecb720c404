-- ===== src/Gsdctl/Arguments.antt =====
-- tools/gsdctl/main.cpp: the command line.
use exn_gs.Common.{
  ℕ, ◌≡◌, refl, List, [], ◌∷◌, ◌++◌, Option, none, some, Text, codes, text_eq, if◌then◌else◌, false,
  All, append-nil, append_assoc, to_string, ◌∙◌, ◌^◌, ◌<◌,
}
use exn_gs.Common.Numbers.{stoi_u16, stoi_u16-to_string}

pub record Arguments : Type 0 where
  pub host : Text
  pub port : ℕ
  pub command : Text
  pub args : List Text

abbrev pub no_arguments : Arguments
no_arguments = record { host = codes "127.0.0.1"; port = 7777; command = []; args = [] }

-- `command` if that is empty, an argument of the command if not.
abbrev positional : Arguments → Text → Arguments
positional a arg = elim a.command [
  | [] ↦ record a { command = arg }
  | c ∷ cs ↦ record a { args = a.args ++ arg ∷ [] }
]

-- The loop over `argv`; `none` is the exception of std::stoi. Without a value behind it, `--host` and
-- `--port` are arguments as any other.
unfoldable pub parse_args : Arguments → List Text → Option Arguments
parse_args a [] = some a
parse_args a (arg ∷ []) = some (positional a arg)
parse_args a (arg ∷ value ∷ rest) =
    let behind_host = parse_args (record a { host = value }) rest in
    let behind_port : Option Arguments = elim (stoi_u16 value) [
      | none ↦ none
      | some port ↦ parse_args (record a { port = port }) rest
    ] in
    let behind_argument = parse_args (positional a arg) (value ∷ rest) in
    if text_eq arg (codes "--host")
    then behind_host
    else if text_eq arg (codes "--port")
    then behind_port
    else behind_argument

-- What `main` does with them: it ends on an exception that nothing catches, shows its usage and exits
-- with 1, or connects.
pub data Start : Type 0 where
  terminates shows_usage : Start
  connects : Text → ℕ → Text → List Text → Start

unfoldable pub start : List Text → Start
start argv = elim (parse_args no_arguments argv) [
  | none ↦ terminates
  | some a ↦ elim a.command [ [] ↦ shows_usage | c ∷ cs ↦ connects a.host a.port (c ∷ cs) a.args ]
]

-- An argument that reads as neither option.
abbrev pub IsPlain : Text → Type 0
IsPlain arg = (text_eq arg (codes "--host") ≡ false) × (text_eq arg (codes "--port") ≡ false)

parse_args-plain :
    (h : Text) (port c : ℕ) (cs : Text) (before args : List Text)
    → All IsPlain args
    → let a : Arguments = record { host = h; port = port; command = c ∷ cs; args = before } in
      parse_args a args ≡ some (record a { args = before ++ args })
unfolding parse_args
parse_args-plain h port c cs before [] p = rw (append-nil before) refl
parse_args-plain h port c cs before (arg ∷ []) p = refl
parse_args-plain h port c cs before (arg ∷ value ∷ rest) (arg_plain, p) =
    rw (arg_plain.0, arg_plain.1)
      (parse_args-plain h port c cs (before ++ arg ∷ []) (value ∷ rest) p
        ∙ rw (append_assoc before (arg ∷ []) (value ∷ rest)) refl)

parse_args-command :
    (h : Text) (port c : ℕ) (cs : Text) (args : List Text)
    → All IsPlain ((c ∷ cs) ∷ args)
    → parse_args (record { host = h; port = port; command = []; args = [] }) ((c ∷ cs) ∷ args)
      ≡ some (record { host = h; port = port; command = c ∷ cs; args = args })
unfolding parse_args
parse_args-command h port c cs [] p = refl
parse_args-command h port c cs (arg ∷ args) (command_plain, p) =
    rw (command_plain.0, command_plain.1) (parse_args-plain h port c cs [] (arg ∷ args) p)

parse_args-port :
    (a : Arguments) (value : Text) (port : ℕ) (rest : List Text)
    → stoi_u16 value ≡ some port
    → parse_args a (codes "--port" ∷ value ∷ rest) ≡ parse_args (record a { port = port }) rest
unfolding parse_args
parse_args-port a value port rest e = rw e refl

-- `--host`, `--port` with a port number, and a command with its arguments, none of which reads as an
-- option: the client connects to that host and port, with that command and these arguments.
pub start-options :
    (host : Text) (port c : ℕ) (cs : Text) (args : List Text)
    → port < 2 ^ 16
    → All IsPlain ((c ∷ cs) ∷ args)
    → start (codes "--host" ∷ host ∷ codes "--port" ∷ to_string port ∷ (c ∷ cs) ∷ args)
      ≡ connects host port (c ∷ cs) args
unfolding start parse_args
start-options host port c cs args h p =
    rw
      (
        start,
        parse_args-port (record no_arguments { host = host }) (to_string port) port
            ((c ∷ cs) ∷ args) (stoi_u16-to_string port h),
        parse_args-command host port c cs args p,
      )
      refl
