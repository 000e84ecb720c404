-- ===== src/Storage.antt =====
-- daemon/src/storage_file.cpp: the log of received packets, one JSON object on each line.
pub mod Lines
use exn_gs.Common.{
  ℕ, Bool, true, false, List, [], ◌∷◌, ◌++◌, Text, codes, to_string, ◌==◌, if◌then◌else◌,
}
use exn_gs.Types.{Direction, tc, tm, PacketRecord}

-- The escapes of `"`, `\`, newline, carriage return and tab.
unfoldable pub escape_char : ℕ → Text
escape_char c =
    if c == 34
    then 92 ∷ 34 ∷ []
    else if c == 92
    then 92 ∷ 92 ∷ []
    else if c == 10
    then 92 ∷ b'n' ∷ []
    else if c == 13
    then 92 ∷ b'r' ∷ []
    else if c == 9
    then 92 ∷ b't' ∷ []
    else c ∷ []

unfoldable pub escape : Text → Text
unfolding escape_char
escape [] = []
escape (c ∷ cs) = escape_char c ++ escape cs

-- A key in quotes, with its colon.
abbrev pub key : Text → Text
key name = 34 ∷ name ++ 34 ∷ b':' ∷ []

abbrev pub dir_text : Direction → Text
dir_text tc = 34 ∷ codes "TC" ++ 34 ∷ []
dir_text tm = 34 ∷ codes "TM" ++ 34 ∷ []

-- What `store` writes of a record; the raw bytes are not part of it.
unfoldable pub json_line : PacketRecord → Text
json_line rec =
    codes "{"
    ++ key (codes "ts_ns")
    ++ to_string rec.ts_ns
    ++ codes ","
    ++ key (codes "dir")
    ++ dir_text rec.dir
    ++ codes ","
    ++ key (codes "apid")
    ++ to_string rec.apid
    ++ codes ","
    ++ key (codes "seq")
    ++ to_string rec.seq
    ++ codes ","
    ++ key (codes "service")
    ++ to_string rec.service
    ++ codes ","
    ++ key (codes "subservice")
    ++ to_string rec.subservice
    ++ codes ","
    ++ key (codes "summary")
    ++ (34 ∷ escape rec.summary ++ 34 ∷ [])
    ++ codes "}"
    ++ 10 ∷ []

-- The file after `store`; `good` is the state of the stream.
unfoldable pub store : Bool → Text → PacketRecord → Text
store good file rec = if good then file ++ json_line rec else file
