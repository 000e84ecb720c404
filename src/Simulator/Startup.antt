-- ===== src/Simulator/Startup.antt =====
-- sim/src/main.cpp: `main`.
use exn_gs.Common.{
  ◌≡◌, refl, Bool, false, ◌||◌, List, [], ◌∷◌, ◌++◌, Text, codes, text_eq, ℕ, to_string,
  if◌then◌else◌,
}
use exn_gs.Simulator.Sessions.{SimLink, Effect, new_link, start_session}
use exn_gs.Simulator.Trace.{traced, session_line}

-- What HardRT and the acceptor answer: the version, and whether the calls fail.
pub record Platform : Type 0 where
  pub init_fails : Bool
  pub bind_throws : Bool
  pub tc_task_fails : Bool
  pub tm_task_fails : Bool

-- `prints_version` prints HardRT's version and port.
pub data Action : Type 0 where
  prints_version : Action
  prints : Text → Action
  does : Effect → Action
  starts_io_thread creates_tc_task creates_tm_task starts_scheduler : Action

-- An exception of the acceptor is not caught.
pub data Ending : Type 0 where
  runs : SimLink → Ending
  exits : ℕ → Ending
  terminates : Ending

unfoldable is_verbose : List Text → Bool
is_verbose [] = false
is_verbose (a ∷ args) = text_eq a (codes "-v") || text_eq a (codes "--verbose") || is_verbose args

abbrev all_prints : List Text → List Action
all_prints [] = []
all_prints (line ∷ lines) = prints line ∷ all_prints lines

abbrev all_session : List Effect → List Action
all_session [] = []
all_session (e ∷ es) = does e ∷ all_session es

abbrev when : Bool → Text → List Action
when fails line = if fails then prints line ∷ [] else []

-- `host` is 127.0.0.1 and `port` 9000, whatever the arguments.
unfoldable pub sim_main : Platform → List Text → List Action × Ending
unfolding is_verbose start_session
sim_main platform args =
    let (link, effects) = start_session new_link in
    if platform.init_fails
    then (prints_version ∷ prints (codes "HardRT init failed") ∷ [], exits 1)
    else if platform.bind_throws
    then (prints_version ∷ [], terminates)
    else (
      prints_version
          ∷ prints (codes "stm32_sim listening on 127.0.0.1:" ++ to_string 9000)
          ∷ (all_prints (traced (is_verbose args) (session_line ∷ []))
              ++ all_session effects
              ++ starts_io_thread
                ∷ creates_tc_task
                ∷ (when platform.tc_task_fails (codes "create tc_dispatch_task failed")
                    ++ creates_tm_task
                      ∷ (when platform.tm_task_fails (codes "create tm_tx_task failed")
                          ++ starts_scheduler ∷ []))),
      runs link,
    )

-- The simulator runs unless HardRT or the acceptor fails, also where a task could not be created;
-- then it waits for a client, on a link that is not connected and to which nothing is written.
sim_main_runs :
    (platform : Platform) (args : List Text)
    → platform.init_fails ≡ false
    → platform.bind_throws ≡ false
    → (sim_main platform args).1 ≡ runs new_link
unfolding sim_main start_session
sim_main_runs platform args a b = rw (a, b) refl
