-- ===== src/Process.antt =====
-- The main programs: a main opens connections, puts the parts together, starts goroutines and
-- serves until a signal. log.Fatalf ends the process at once, without the deferred calls.
pub mod Mains
use microservices_go.Prelude.{ℤ, String, Bool, true, false, List, [], ◌∷◌, ◌++◌, if◌then◌else◌}
use microservices_go.Config.Environment.{Environment}

pub data Resource : Type 0 where
  pool redis broker channel billing_conn auth_conn signals : Resource

-- The calls that can return an error.
pub data Call : Type 0 where
  load_env load_config create_pool ping_pool ping_redis dial_broker open_channel : Call
  declare_exchange listen dial_billing dial_auth read_key parse_key : Call
  close : Resource → Call

-- The context that a goroutine gets: the one that a signal ends, or the background.
pub data Context : Type 0 where
  until_signal background : Context

pub data Action : Type 0 where
  opens closes : Resource → Action
  declares : (exchange : String) → Action
  starts_outbox_worker : (exchange : String) → Context → Action
  starts_cleanup_worker : Context → ℤ → Action
  starts_consumer : (queue routing_key : String) → List String → Context → Action
  serves : (address : String) → Action
  stops_server waits_for_consumer : Action

-- What a select at the end of a main receives first: the signal, an error of the goroutine, or its
-- end without one.
pub data Ending : Type 0 where
  signal crash done : Ending

pub record World : Type 0 where
  pub getenv : Environment
  pub fails : Call → Bool
  pub ending : Ending

-- A deferred close: what becomes of its error.
pub data Deferred : Type 0 where
  fatally printing quietly : Resource → Deferred

pub record State : Type 0 where
  pub log : List Action
  pub deferred : List Deferred

pub data Step (A : Type 0) : Type 0 where
  exited : List Action → Step A
  going : A → State → Step A

-- How a process ends: by log.Fatalf, or by the return of main.
pub data Exit : Type 0 where
  failed returned : List Action → Exit

abbrev pub Main : Type 0 → Type 0
Main A = World → State → Step A

infixl 5 ◌>>=◌ ◌>>◌
abbrev pub ◌>>=◌ : {A B : Type 0} → Main A → (A → Main B) → Main B
◌>>=◌ m f w s = elim (m w s) [ exited log ↦ exited log | going a s' ↦ f a w s' ]

abbrev pub ◌>>◌ : {A B : Type 0} → Main A → Main B → Main B
m >> k = m >>= λ _. k

-- if err != nil { log.Fatalf(...) }
abbrev pub need : Call → Main (Unit {0})
need c w s = if w.fails c then exited s.log else going tt s

abbrev pub proceed : Main (Unit {0})
proceed w s = going tt s

abbrev pub fatal : Main (Unit {0})
fatal w s = exited s.log

abbrev pub act : Action → Main (Unit {0})
act a w s = going tt (record s { log = s.log ++ a ∷ [] })

abbrev pub defer : Deferred → Main (Unit {0})
defer d w s = going tt (record s { deferred = d ∷ s.deferred })

abbrev pub environment : Main Environment
environment w s = going w.getenv s

abbrev pub ending : Main Ending
ending w s = going w.ending s

-- The deferred calls, the last one first; a Fatalf in one of them skips the others.
unfoldable pub run_deferred : (Call → Bool) → List Deferred → List Action → Exit
run_deferred fails [] log = returned log
run_deferred fails (quietly r ∷ ds) log = run_deferred fails ds (log ++ closes r ∷ [])
run_deferred fails (printing r ∷ ds) log = run_deferred fails ds (log ++ closes r ∷ [])
run_deferred fails (fatally r ∷ ds) log =
    let rest = run_deferred fails ds (log ++ closes r ∷ []) in
    if fails (close r) then failed log else rest

unfoldable pub run_main : Main (Unit {0}) → World → Exit
unfolding run_deferred
run_main main w = elim (main w (record { log = []; deferred = [] })) [
  | exited log ↦ failed log
  | going _ s ↦ run_deferred w.fails s.deferred s.log
]
