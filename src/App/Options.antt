-- ===== src/App/Options.antt =====
-- daemon/src/main.cpp: the command line of the daemon, and the defaults of `AppConfig`.
use exn_gs.Common.{
  ℕ, ◌^◌, ◌<◌, ◌≡◌, refl, Bool, true, false, ◌||◌, List, [], ◌∷◌, ◌++◌, none, some, Text, codes,
  text_eq, to_string, All, ◌==◌, if◌then◌else◌, ap, ◌∙◌,
}
use exn_gs.Common.Numbers.{stoi_u16, stoi_u16-to_string, stoul_u32, stoul_u32-to_string}
use exn_gs.Common.Endpoints.{split_at_colon, split_at_colon-append}

pub record AppConfig : Type 0 where
  pub listen_host : Text
  pub listen_port : ℕ
  pub serial_port : Text
  pub baud : ℕ
  pub log_dir : Text
  pub verbose : Bool

abbrev pub default_config : AppConfig
default_config = record {
  listen_host = codes "127.0.0.1";
  listen_port = 7777;
  serial_port = [];
  baud = 115200;
  log_dir = codes "logs";
  verbose = false;
}

-- The daemon is started, ends with an exit code, or is ended by an exception of std::stoi or
-- std::stoul, which nothing catches.
pub data Parsed : Type 0 where
  runs : AppConfig → Parsed
  exits : ℕ → Parsed
  terminates : Parsed

abbrev pub takes_value : Text → Bool
takes_value a =
    text_eq a (codes "--listen")
    || text_eq a (codes "--port")
    || text_eq a (codes "--baud")
    || text_eq a (codes "--logdir")

-- An option with its value, and how the parsing goes on.
unfoldable pub set_option : AppConfig → Text → Text → (AppConfig → Parsed) → Parsed
set_option cfg a v go =
    if text_eq a (codes "--listen")
    then elim (split_at_colon v) [
      | none ↦ exits 2
      | some (host, rest) ↦ elim (stoi_u16 rest) [
        | none ↦ terminates
        | some port ↦ go (record cfg { listen_host = host; listen_port = port })
      ]
    ]
    else if text_eq a (codes "--port")
    then go (record cfg { serial_port = v })
    else if text_eq a (codes "--baud")
    then elim (stoul_u32 v) [ none ↦ terminates | some baud ↦ go (record cfg { baud = baud }) ]
    else go (record cfg { log_dir = v })

-- An option without a value.
unfoldable pub set_flag : AppConfig → Text → (AppConfig → Parsed) → Parsed
set_flag cfg a go =
    if text_eq a (codes "-h") || text_eq a (codes "--help")
    then exits 0
    else if text_eq a (codes "-v") || text_eq a (codes "--verbose")
    then go (record cfg { verbose = true })
    else exits 2

unfoldable pub parse_args : AppConfig → List Text → Parsed
unfolding set_option set_flag
parse_args cfg [] = runs cfg
parse_args cfg (a ∷ []) = if takes_value a then exits 2 else set_flag cfg a runs
parse_args cfg (a ∷ v ∷ rest) =
    if takes_value a
    then set_option cfg a v (λ cfg'. parse_args cfg' rest)
    else set_flag cfg a (λ cfg'. parse_args cfg' (v ∷ rest))

-- A command line for a configuration.
abbrev pub print_args : AppConfig → List Text
print_args cfg =
    codes "--listen"
    ∷ (cfg.listen_host ++ b':' ∷ to_string cfg.listen_port)
    ∷ codes "--port"
    ∷ cfg.serial_port
    ∷ codes "--baud"
    ∷ to_string cfg.baud
    ∷ codes "--logdir"
    ∷ cfg.log_dir
    ∷ (if cfg.verbose then codes "--verbose" ∷ [] else [])

parse_args-listen :
    (cfg : AppConfig) (host : Text) (port : ℕ) (rest : List Text)
    → All (λ c. (c == b':') ≡ false) host
    → port < 2 ^ 16
    → parse_args cfg (codes "--listen" ∷ (host ++ b':' ∷ to_string port) ∷ rest)
      ≡ parse_args (record cfg { listen_host = host; listen_port = port }) rest
unfolding parse_args set_option
parse_args-listen cfg host port rest h k =
    rw (split_at_colon-append host (to_string port) h, stoi_u16-to_string port k, set_option) refl

parse_args-baud :
    (cfg : AppConfig) (baud : ℕ) (rest : List Text)
    → baud < 2 ^ 32
    → parse_args cfg (codes "--baud" ∷ to_string baud ∷ rest)
      ≡ parse_args (record cfg { baud = baud }) rest
unfolding parse_args set_option
parse_args-baud cfg baud rest h = rw (stoul_u32-to_string baud h, set_option) refl

parse_args-texts :
    (cfg : AppConfig) (port dir : Text) (rest : List Text)
    → (parse_args cfg (codes "--port" ∷ port ∷ rest)
        ≡ parse_args (record cfg { serial_port = port }) rest)
      × (parse_args cfg (codes "--logdir" ∷ dir ∷ rest)
          ≡ parse_args (record cfg { log_dir = dir }) rest)
unfolding parse_args set_option
parse_args-texts cfg port dir rest = (refl, refl)

parse_args-verbose :
    (cfg : AppConfig) (verbose : Bool)
    → cfg.verbose ≡ false
    → parse_args cfg (if verbose then codes "--verbose" ∷ [] else [])
      ≡ runs (record cfg { verbose = verbose })
unfolding parse_args set_flag
parse_args-verbose cfg true e = refl
parse_args-verbose cfg false e = ap (λ (v : Bool). runs (record cfg { verbose = v })) e

-- Every configuration whose host has no colon and whose numbers are in the ranges of their C++ types can be
-- given on the command line: the daemon runs on it.
pub parse_args-print_args :
    (cfg : AppConfig)
    → All (λ c. (c == b':') ≡ false) cfg.listen_host
    → cfg.listen_port < 2 ^ 16
    → cfg.baud < 2 ^ 32
    → parse_args default_config (print_args cfg) ≡ runs cfg
parse_args-print_args cfg h k l =
    let listening = record default_config {
      listen_host = cfg.listen_host;
      listen_port = cfg.listen_port;
    } in
    let linked = record listening { serial_port = cfg.serial_port } in
    let rated = record linked { baud = cfg.baud } in
    let flags = if cfg.verbose then codes "--verbose" ∷ [] else [] in
    let last_two = codes "--logdir" ∷ cfg.log_dir ∷ flags in
    let last_four = codes "--baud" ∷ to_string cfg.baud ∷ last_two in
    parse_args-listen default_config cfg.listen_host cfg.listen_port
      (codes "--port" ∷ cfg.serial_port ∷ last_four) h k
    ∙ (parse_args-texts listening cfg.serial_port [] last_four).0
    ∙ parse_args-baud linked cfg.baud last_two l
    ∙ (parse_args-texts rated [] cfg.log_dir flags).1
    ∙ parse_args-verbose (record rated { log_dir = cfg.log_dir }) cfg.verbose refl
