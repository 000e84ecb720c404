-- ===== src/Simulator/Sessions/Streams.antt =====
-- sim/src/main.cpp: what the telecommand queue is given, and the writes that run at one time.
use mathlib.Core.List.{flatten}
use exn_gs.Common.{
  ℕ, ◌≡◌, refl, ap, sym, ◌∙◌, true, List, [], ◌∷◌, ◌++◌, append-nil, append_assoc, none, some, Text,
  Option-cases, inl, inr,
}
use exn_gs.SpacePacket.Library.{Pack}
use exn_gs.Framer.{Framer, new_framer, push_bytes, push_all}
use exn_gs.Framer.Chunks.{ReadsHeader, push_all-flatten}
use exn_gs.App.{framer_size}
use exn_gs.Simulator.{TcMessage, accept_tc}
use exn_gs.Simulator.Sessions.{
  SimLink, new_link, Effect, accepts, reads, closes, pushes, posts, writes, Result, start_session,
  on_accepted, push_accepted, on_read, run_posted,
}

abbrev pub pushed : List Effect → List TcMessage
pushed [] = []
pushed (pushes tc ∷ es) = tc ∷ pushed es
pushed (accepts ∷ es) = pushed es
pushed (reads ∷ es) = pushed es
pushed (closes ∷ es) = pushed es
pushed (posts bytes ∷ es) = pushed es
pushed (writes bytes ∷ es) = pushed es

pushed-append : (xs ys : List Effect) → pushed (xs ++ ys) ≡ pushed xs ++ pushed ys
pushed-append [] ys = refl
pushed-append (pushes tc ∷ xs) ys = ap (λ (l : List TcMessage). tc ∷ l) (pushed-append xs ys)
pushed-append (accepts ∷ xs) ys = pushed-append xs ys
pushed-append (reads ∷ xs) ys = pushed-append xs ys
pushed-append (closes ∷ xs) ys = pushed-append xs ys
pushed-append (posts bytes ∷ xs) ys = pushed-append xs ys
pushed-append (writes bytes ∷ xs) ys = pushed-append xs ys

module _ (pack : Pack) (now : ℕ) where
  -- The telecommands among packets that are for the on-board computer.
  abbrev pub accepted : List (List ℕ) → List TcMessage
  accepted [] = []
  accepted (p ∷ ps) = elim (accept_tc pack now p) [
    | none ↦ accepted ps
    | some tc ↦ tc ∷ accepted ps
  ]

  accepted-append : (ps qs : List (List ℕ)) → accepted (ps ++ qs) ≡ accepted ps ++ accepted qs
  accepted-append [] qs = refl
  accepted-append (p ∷ ps) qs = elim (Option-cases (accept_tc pack now p)) [
    | inl e ↦ rw (e, accepted-append ps qs, accepted) refl
    | inr (tc, e) ↦ rw (e, accepted-append ps qs, accepted) refl
  ]

  pushed-push_accepted : (ps : List (List ℕ)) → pushed (push_accepted pack now ps) ≡ accepted ps
  pushed-push_accepted [] = refl
  pushed-push_accepted (p ∷ ps) = elim (Option-cases (accept_tc pack now p)) [
    | inl e ↦ rw (e, push_accepted, accepted) (pushed-push_accepted ps)
    | inr (tc, e) ↦
        rw (e, push_accepted, accepted)
          (ap (λ (l : List TcMessage). tc ∷ l) (pushed-push_accepted ps))
  ]

  -- The reads of a session, and the error that ends it.
  abbrev pub read_session : SimLink → List (List ℕ) → Text → Result
  read_session l [] message = on_read pack now l (some message) []
  read_session l (chunk ∷ chunks) message =
      let (l', effects) = on_read pack now l none chunk in
      let (l'', more) = read_session l' chunks message in (l'', effects ++ more)

  -- Clients that come one after the other; each sends its chunks and is lost.
  abbrev pub serve : SimLink → List (List (List ℕ) × Text) → Result
  serve l [] = (l, [])
  serve l ((chunks, message) ∷ clients) =
      let (l', effects) = on_accepted l none in
      let (l'', more) = read_session l' chunks message in
      let (l''', rest) = serve l'' clients in (l''', effects ++ more ++ rest)

  -- What each client has sent, each framed from its first byte on.
  abbrev pub expected : List (List (List ℕ) × Text) → List TcMessage
  expected [] = []
  expected ((chunks, message) ∷ clients) =
      accepted (push_bytes (framer_size pack) new_framer (flatten chunks)).1 ++ expected clients

  read_session-pushed :
      (l : SimLink) (chunks : List (List ℕ)) (message : Text)
      → (pushed (read_session l chunks message).1
          ≡ accepted (push_all (framer_size pack) l.framer chunks).1)
        × ((read_session l chunks message).0 ≡ new_link)
  unfolding on_read start_session push_all
  read_session-pushed l [] message = (refl, refl)
  read_session-pushed l (chunk ∷ chunks) message =
      let (framer, packets) = push_bytes (framer_size pack) l.framer chunk in
      let l' = record l { framer = framer } in
      let more = (read_session l' chunks message).1 in
      let (rest, fresh) = read_session-pushed l' chunks message in
      (
        pushed-append (push_accepted pack now packets ++ reads ∷ []) more
            ∙ rw
                (
                  pushed-append (push_accepted pack now packets) (reads ∷ []),
                  append-nil (pushed (push_accepted pack now packets)),
                  pushed-push_accepted packets,
                  rest,
                )
                (sym (accepted-append packets (push_all (framer_size pack) framer chunks).1)),
        fresh,
      )

  -- The telecommand queue is given, client by client, the telecommands among the packets that the client's
  -- bytes hold: however they were cut into reads, and whatever bytes of a cut packet the client before
  -- had left. (The library reads the declared size from the six bytes of the primary header.)
  pub serve-expected :
      (clients : List (List (List ℕ) × Text))
      → ReadsHeader (framer_size pack)
      → pushed (serve new_link clients).1 ≡ expected clients
  unfolding on_accepted
  serve-expected [] d = refl
  serve-expected ((chunks, message) ∷ clients) d =
      let l = (on_accepted new_link none).0 in
      let (first, fresh) = read_session-pushed l chunks message in
      let more = (read_session l chunks message).1 in
      let whole =
        ap (λ (r : Framer × List (List ℕ)). accepted r.1)
          (push_all-flatten (framer_size pack) d new_framer chunks) in
      pushed-append (reads ∷ [] ++ more) (serve (read_session l chunks message).0 clients).1
      ∙ rw (fresh, first, whole, serve-expected clients d) refl

-- Reports that `tm_tx_task` has taken, and whose lambdas run, before a write completes.
abbrev pub run_all : SimLink → List (List ℕ) → Result
run_all l [] = (l, [])
run_all l (bytes ∷ queue) =
    let (l', effects) = run_posted l bytes in
    let (l'', more) = run_all l' queue in (l'', effects ++ more)

abbrev pub write_all : List (List ℕ) → List Effect
write_all [] = []
write_all (bytes ∷ queue) = writes bytes ∷ write_all queue

-- Nothing holds a write back until the one before has completed: all reports that are posted to a
-- connected socket are being written at the same time.
pub run_all-writing :
    (framer : Framer) (writing queue : List (List ℕ))
    → run_all (record { connected = true; framer = framer; writing = writing }) queue
      ≡ (record { connected = true; framer = framer; writing = writing ++ queue }, write_all queue)
unfolding run_posted
run_all-writing framer writing [] = rw (append-nil writing) refl
run_all-writing framer writing (bytes ∷ queue) =
    rw
      (
        run_all-writing framer (writing ++ bytes ∷ []) queue,
        append_assoc writing (bytes ∷ []) queue,
      )
      refl
