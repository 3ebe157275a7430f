-- ===== src/Exporter/Lifetime.antt =====
-- `Start` and `Stop` of the exporter's server.
use block_explorer.Prelude.{◌≡◌, refl, Bool, false, List, [], ◌∷◌, arith}
use block_explorer.Exporter.{Server, new_server, start, stop, Call, starts, stops, call, calls}

-- A server that nobody has marked as started.
record IsUnmarked (s : Server) : Type 0 where
  unmarked : s.has_started ≡ false
  uncancelled : s.cancelled ≡ 0

call-IsUnmarked : (c : Call) (s : Server) → IsUnmarked s → IsUnmarked (call c s)
unfolding call start stop
call-IsUnmarked (starts listens) s u = record {
  unmarked = ground (arith, u.unmarked);
  uncancelled = ground (arith, u.uncancelled);
}
call-IsUnmarked stops s u = record {
  unmarked = ground (arith, u.unmarked);
  uncancelled = ground (arith, u.unmarked, u.uncancelled);
}

calls-IsUnmarked : (cs : List Call) (s : Server) → IsUnmarked s → IsUnmarked (calls cs s)
unfolding calls
calls-IsUnmarked [] s u = u
calls-IsUnmarked (c ∷ cs) s u = calls-IsUnmarked cs (call c s) (call-IsUnmarked c s u)

-- Whatever calls of `Start` and `Stop` a new server gets, it never counts as started, and no call
-- of `Stop` cancels the context that `Start` has made.
pub server_never_stops :
    (has_grpc_server : Bool) (cs : List Call)
    → ((calls cs (new_server has_grpc_server)).has_started ≡ false)
      × ((calls cs (new_server has_grpc_server)).cancelled ≡ 0)
unfolding new_server
server_never_stops has_grpc_server cs =
    let u =
      calls-IsUnmarked cs (new_server has_grpc_server)
        (record { unmarked = refl; uncancelled = refl }) in
    (u.unmarked, u.uncancelled)
