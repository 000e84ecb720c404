-- ===== src/Tests/Link.antt =====
-- Concrete runs of the device link.
use mathlib.Core.List.{Sublist}
use exn_gs.Common.{drop, ◌≡◌, refl, arith, true, false, [], ◌∷◌, ◌++◌, none, some, codes, List}
use exn_gs.SerialLink.{
  SerialLink, new_link, read, write, posted, run_posted, on_read, on_written, start, fails,
  PortAnswer, write_bytes,
}
use exn_gs.SerialLink.World.{
  World, Completion, complete, after, starts_link, writes_bytes, Reach, here, next,
}
use exn_gs.SerialLink.Order.{IsOrdered, new_link-Reach}
use exn_gs.SerialLink.Fifo.{
  Event, runs_posted, completes_write, completes_read, run, written, handed_over, opened_with,
  run-handed_over,
}
use exn_gs.SerialLink.Reconnects
use exn_gs.SerialLink.Errors.{read_error-write_error}

abbrev pub closed_link : SerialLink
closed_link = record {
  is_tcp = false;
  tcp_host = [];
  tcp_port = 0;
  port = codes "/dev/ttyACM0";
  opened = false;
  connecting = false;
  generation = 0;
  detail = [];
  tx_queue = [];
}

abbrev pub opened_link : SerialLink
opened_link = record closed_link { opened = true; generation = 1; tx_queue = (1 ∷ 2 ∷ []) ∷ [] }

closed_link_lem : new_link (codes "/dev/ttyACM0") ≡ some closed_link
unfolding new_link
closed_link_lem = refl

abbrev pub port_opens : PortAnswer
port_opens = record { open_error = none; baud_error = none }

abbrev w0 : World
w0 = record { link = closed_link; pending = [] }

abbrev w1 : World
w1 = after [] (start closed_link port_opens)

abbrev w2 : World
w2 = after w1.pending (write_bytes w1.link (1 ∷ 2 ∷ []))

-- The link has been opened and given two bytes.
opens : Reach w0 w2
opens = next (next here (starts_link port_opens (omega arith))) (writes_bytes (1 ∷ 2 ∷ []))

new_link-Reach_example : IsOrdered w2
new_link-Reach_example = new_link-Reach (codes "/dev/ttyACM0") closed_link w2 closed_link_lem opens

read_error-write_error_example :
    let failed =
      complete opened_link (read 1) (record { ec = some (codes "End of file"); bytes = [] }) in
    let again =
      complete failed.0
        (write 1 (1 ∷ 2 ∷ []))
        (record { ec = some (codes "Operation canceled"); bytes = [] }) in
    (failed.0.opened ≡ false)
    × (again.0 ≡ failed.0)
    × (again.1
        ≡ fails (codes "device write failed" ++ codes ": " ++ codes "Operation canceled") ∷ [])
read_error-write_error_example =
    read_error-write_error opened_link (1 ∷ 2 ∷ []) (codes "End of file")
      (codes "Operation canceled")

-- Two packets are handed over before the first has been written.
abbrev traffic : List Event
traffic =
    runs_posted (1 ∷ [])
    ∷ completes_read (9 ∷ [])
    ∷ runs_posted (2 ∷ [])
    ∷ completes_write
    ∷ runs_posted (3 ∷ [])
    ∷ []

run-handed_over_example :
    let r = run (opened_with closed_link []) traffic in
    written r.1 ++ drop 1 r.0.tx_queue ≡ handed_over traffic
run-handed_over_example = run-handed_over closed_link traffic

abbrev succeeds : Completion
succeeds = record { ec = none; bytes = [] }

abbrev breaks : Completion
breaks = record { ec = some (codes "End of file"); bytes = [] }

-- The connection is lost while one packet is written and one waits, and comes back.
abbrev broken_traffic : List Reconnects.Event
broken_traffic =
    Reconnects.starts_link port_opens
    ∷ Reconnects.completes (posted (1 ∷ [])) succeeds
    ∷ Reconnects.completes (posted (2 ∷ [])) succeeds
    ∷ Reconnects.completes (read 1) breaks
    ∷ Reconnects.completes (posted (3 ∷ [])) succeeds
    ∷ Reconnects.starts_link port_opens
    ∷ Reconnects.completes (write 1 (1 ∷ [])) succeeds
    ∷ Reconnects.completes (posted (4 ∷ [])) succeeds
    ∷ []

written-broken_traffic :
    written (Reconnects.run closed_link broken_traffic).1 ≡ (1 ∷ []) ∷ (4 ∷ []) ∷ []
unfolding start complete run_posted on_read on_written
written-broken_traffic = refl

run-sublist_example :
    let r = Reconnects.run closed_link broken_traffic in
    Sublist (written r.1 ++ drop 1 r.0.tx_queue) (Reconnects.handed_over broken_traffic)
run-sublist_example = Reconnects.run-sublist closed_link broken_traffic refl
