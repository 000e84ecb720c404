-- ===== src/Tests/Store.antt =====
-- Concrete histories of the state store, and lines of the log.
use exn_gs.Common.{Text, ◌++◌, ◌+◌, some, false, ℕ, ◌+◌, ◌≡◌, List, [], ◌∷◌, codes}
use exn_gs.Types.{PacketRecord, tm, connected}
use exn_gs.State.{new_store}
use exn_gs.Storage.{escape}
use exn_gs.Storage.Lines.{read_string, read_string-escape}
use exn_gs.State.History.{Call, links, packets, sends, decode_fails, run}
use exn_gs.State.Refines.{Tells, run-new_store-Tells}

abbrev hk_record : ℕ → PacketRecord
hk_record seq = record {
  ts_ns = 1000 + seq;
  dir = tm;
  apid = 256;
  seq = seq;
  service = 3;
  subservice = 25;
  summary = codes "RX";
  raw = 9 ∷ 0 ∷ 192 ∷ [];
}

abbrev history : List Call
history =
    links connected (codes "sim")
    ∷ packets (hk_record 1)
    ∷ packets (hk_record 2)
    ∷ decode_fails
    ∷ sends 11
    ∷ packets (hk_record 3)
    ∷ []

run-new_store-Tells_example : Tells (run (new_store 2) history) 2 history
run-new_store-Tells_example = run-new_store-Tells 2 history

-- A summary that tries to end its string and its line.
abbrev odd_summary : Text
odd_summary = codes "RX INVALID: " ++ 34 ∷ 10 ∷ 92 ∷ codes "x"

read_string-escape_example :
    read_string false (escape odd_summary ++ 34 ∷ codes "}") ≡ some (odd_summary, codes "}")
read_string-escape_example = read_string-escape odd_summary (codes "}")
