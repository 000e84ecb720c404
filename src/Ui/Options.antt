-- ===== src/Ui/Options.antt =====
-- ui/src/main.cpp: the command line of the user interface.
use exn_gs.Common.{
  ℕ, ◌^◌, ◌<◌, ◌≡◌, refl, List, [], ◌∷◌, ◌++◌, none, some, Text, codes, text_eq, to_string, All,
  ◌==◌, if◌then◌else◌, false, ◌||◌,
}
use exn_gs.Common.Numbers.{stoi_u16, stoi_u16-to_string}
use exn_gs.Common.Endpoints.{split_at_colon, split_at_colon-append}

pub record Options : Type 0 where
  pub host : Text
  pub port : ℕ

abbrev pub default_options : Options
default_options = record { host = codes "127.0.0.1"; port = 7777 }

-- `terminates` is the exception of std::stoi, which nothing catches.
pub data Parsed : Type 0 where
  runs : Options → Parsed
  exits : ℕ → Parsed
  terminates : Parsed

abbrev connect_to : Text → (Options → Parsed) → Parsed
connect_to v go = elim (split_at_colon v) [
  | none ↦ exits 2
  | some (host, rest) ↦ elim (stoi_u16 rest) [
    | none ↦ terminates
    | some port ↦ go (record { host = host; port = port })
  ]
]

-- `-h` has exit code 0.
abbrev other_option : Text → Parsed
other_option a = exits (if text_eq a (codes "-h") || text_eq a (codes "--help") then 0 else 2)

unfoldable pub parse_options : Options → List Text → Parsed
parse_options o [] = runs o
parse_options o (a ∷ []) = if text_eq a (codes "--connect") then exits 2 else other_option a
parse_options o (a ∷ v ∷ rest) =
    if text_eq a (codes "--connect")
    then connect_to v (λ o'. parse_options o' rest)
    else other_option a

-- `--connect` with a host that has no colon and a port number: the interface runs on these.
pub parse_options-connect :
    (o : Options) (host : Text) (port : ℕ)
    → All (λ c. (c == b':') ≡ false) host
    → port < 2 ^ 16
    → parse_options o (codes "--connect" ∷ (host ++ b':' ∷ to_string port) ∷ [])
      ≡ runs (record { host = host; port = port })
unfolding parse_options
parse_options-connect o host port h k =
    rw (split_at_colon-append host (to_string port) h, stoi_u16-to_string port k, connect_to) refl
