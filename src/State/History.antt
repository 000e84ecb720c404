-- ===== src/State/History.antt =====
-- The store against the history of its calls: what the counters, the ring and the services say.
use exn_gs.Common.{ℕ, suc, ◌+◌, List, [], ◌∷◌, length, if◌then◌else◌, Option, some, Text, ◌==◌}
use exn_gs.Types.{LinkState, PacketRecord}
use exn_gs.State.{StateStore, set_link, on_packet, on_tx, on_decode_error, on_framing_error}

-- The calls of the store that change it.
pub data Call : Type 0 where
  links : LinkState → Text → Call
  packets : PacketRecord → Call
  sends : ℕ → Call
  decode_fails framing_fails : Call

unfoldable pub step : StateStore → Call → StateStore
step s (links st detail) = set_link s st detail
step s (packets rec) = on_packet s rec
step s (sends bytes) = on_tx s bytes
step s decode_fails = on_decode_error s
step s framing_fails = on_framing_error s

unfoldable pub run : StateStore → List Call → StateStore
run s [] = s
run s (c ∷ cs) = run (step s c) cs

-- What the calls were, in plain lists and sums.
abbrev pub received : List Call → List PacketRecord
received [] = []
received (packets rec ∷ cs) = rec ∷ received cs
received (_ ∷ cs) = received cs

abbrev pub sent : List Call → List ℕ
sent [] = []
sent (sends bytes ∷ cs) = bytes ∷ sent cs
sent (_ ∷ cs) = sent cs

abbrev pub sum : List ℕ → ℕ
sum [] = 0
sum (x ∷ xs) = x + sum xs

abbrev pub raw_bytes : List PacketRecord → ℕ
raw_bytes [] = 0
raw_bytes (r ∷ rs) = length r.raw + raw_bytes rs

abbrev pub decode_failures : List Call → ℕ
decode_failures [] = 0
decode_failures (decode_fails ∷ cs) = suc (decode_failures cs)
decode_failures (_ ∷ cs) = decode_failures cs

abbrev pub framing_failures : List Call → ℕ
framing_failures [] = 0
framing_failures (framing_fails ∷ cs) = suc (framing_failures cs)
framing_failures (_ ∷ cs) = framing_failures cs

-- The link that a history leaves, from the one before it.
abbrev pub link_after : LinkState × Text → List Call → LinkState × Text
link_after l [] = l
link_after l (links st detail ∷ cs) = link_after (st, detail) cs
link_after l (_ ∷ cs) = link_after l cs

-- The timestamp of the last record of service `k`.
abbrev pub seen_after : ℕ → Option ℕ → List PacketRecord → Option ℕ
seen_after k o [] = o
seen_after k o (r ∷ rs) = seen_after k (if r.service == k then some r.ts_ns else o) rs
