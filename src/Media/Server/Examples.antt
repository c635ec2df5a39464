-- ===== src/Media/Server/Examples.antt =====
-- Runs of the media server, and its theorem at concrete schedules.
use cast_app.Common.{ℕ, ◌≡◌, refl, none, some, true, false, List, [], ◌∷◌, ◌++◌}
use cast_app.Common.Text.{codes}
use cast_app.Media.Http.{done, HttpRequest}
use cast_app.Media.Server.Task.{screen, head_read, generation_changed, chunk, encoder_ended}
use cast_app.Media.Server.{
  bound, set_source, attach_screen_stream, set_port, set_bind_addr, start_unbound, Step, command,
  accepted, task, run,
}
use cast_app.Media.Server.Consumers.{owners}

abbrev get_stream : HttpRequest
get_stream = record { method = codes "GET"; target = codes "/stream"; headers = [] }

abbrev asks : ℕ → Step
asks i = task i (head_read (some (done get_stream (record { bytes = []; breaks = false }))) true 0)

abbrev listening : List Step
listening =
    command (set_bind_addr (record { ip = codes "10.0.0.2"; port = 8080 })) (bound (some 8080))
    ∷ command (set_source (screen (codes "DP-1"))) (bound none)
    ∷ []

-- A connection that was accepted before the stream was attached.
abbrev early : List Step
early =
    listening
    ++ (accepted true
        ∷ command attach_screen_stream (bound none)
        ∷ asks 0
        ∷ task 0 generation_changed
        ∷ [])

-- The stream is dropped with it: neither the slot nor a connection has it.
early_loses : ◌≡◌ {A = ℕ} (owners 0 (run early start_unbound)) 0
unfolding run start_unbound
early_loses = refl

-- The encoder ends while the next stream is attached already.
abbrev overtaken : List Step
overtaken =
    listening
    ++ (command attach_screen_stream (bound none)
        ∷ accepted true
        ∷ asks 0
        ∷ command attach_screen_stream (bound none)
        ∷ task 0 (encoder_ended true)
        ∷ [])

-- The stream that ended takes the place of the new one.
overtaken_loses : (run overtaken start_unbound).live ≡ some 0
unfolding run start_unbound
overtaken_loses = refl

-- A second client is told that the stream is busy.
abbrev two_clients : List Step
two_clients =
    listening
    ++ (command attach_screen_stream (bound none)
        ∷ accepted true
        ∷ accepted true
        ∷ asks 0
        ∷ asks 1
        ∷ task 0 (chunk (1 ∷ 2 ∷ []) 5 true true)
        ∷ [])

one_serves : (run two_clients start_unbound).live ≡ none
unfolding run start_unbound
one_serves = refl

-- Port 0 asks for a free port; what is reported is what was asked for.
abbrev free_port : List Step
free_port = listening ++ (command (set_port 0) (bound (some 40001)) ∷ [])

free_port_unreported : ◌≡◌ {A = ℕ} (run free_port start_unbound).bound_port 0
unfolding run start_unbound
free_port_unreported = refl
