-- ===== src/Tests/Requests.antt =====
-- A request that was pending when its session was stopped.
use vrrelay.Prelude.{◌≢◌, refl, false, none, [], ◌∷◌}
use vrrelay.Prelude.Maps.{get, set}
use vrrelay.Producer.Refresh.{present}
use vrrelay.Producer.Fences.{
  Fences, Token, begin_ensure, call_stop, raise_fence, end_stop, assert_request,
}
use vrrelay.Producer.Requests.{done, more, calls, ends_stop, by_stop, halt-assert_request}

abbrev idle : Fences
idle = record {
  lifecycle = 0;
  closed = false;
  draining = false;
  sessions = [];
  pending = [];
  stops = [];
}

abbrev one_pending : Fences
one_pending = record idle { pending = ("s", 1) ∷ [] }

abbrev token : Token
token = record { lifecycle = 0; session = 0 }

abbrev stopping : Fences
stopping = call_stop one_pending "s" 7

halt-assert_request_example :
    assert_request (end_stop (raise_fence stopping "s") "s" 7) "s" token present ≢ none
unfolding begin_ensure get set
halt-assert_request_example =
    halt-assert_request "s" token present 0 0 0 idle one_pending stopping (raise_fence stopping "s")
      (end_stop (raise_fence stopping "s") "s" 7) refl refl (more _ _ _ _ done (calls "s" 7))
      by_stop (more _ _ _ _ done (ends_stop "s" 7))
