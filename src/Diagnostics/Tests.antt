-- ===== src/Diagnostics/Tests.antt =====
-- Tests of the panel of a VPN's container.
use davy_jones.Prelude.{String, ◌≡◌, refl, true, none, some, List, [], ◌∷◌, ◌++◌}
use davy_jones.Prelude.Integers.{pos}
use davy_jones.Auth.{returned, thrown}
use davy_jones.Forms.Vpns.{CommandResult}
use davy_jones.Diagnostics.{
  start, ping, nc, label, settle_status, settle_logs, has_failed, show_failure,
  is_no_such_container, output_text, finish, follow, settle_call, to_call, to_status, to_logs,
  advance, advance_at, is_enabled, begin, probe_output, PanelEvent, select, type_target, click,
  reply, refresh_both, opened, act, receive, hear, hear_all,
}
use davy_jones.Diagnostics.Moves.{running, listed}
use davy_jones.Diagnostics.Busy.{running-hear_all}

abbrev printed : String → CommandResult
printed s = record { stdout = s; stderr = ""; exit_code = pos 0; error = none }

-- The container starts: its call returns, then the logs, and the status is still waited for. A click on
-- another button does nothing.
abbrev starting : List PanelEvent
starting =
    click start
    ∷ reply 2 (to_call (returned (printed "started")))
    ∷ reply 2 (to_logs (thrown "timeout"))
    ∷ type_target "10.0.0.5"
    ∷ click ping
    ∷ []

starting_is_busy : (hear_all true starting (opened "v1")).state.busy ≡ some "start"
unfolding hear_all hear opened refresh_both act begin label receive advance_at advance settle_call
    follow show_failure has_failed settle_logs is_enabled
starting_is_busy = refl

started_is_idle :
    (hear_all true
      (starting ++ reply 2 (to_status (returned (printed "running"))) ∷ [])
      (opened "v1")).state.busy
    ≡ none
unfolding hear_all hear opened refresh_both act begin label receive advance_at advance settle_call
    follow show_failure has_failed settle_logs settle_status is_no_such_container output_text finish
    is_enabled
started_is_idle = refl

running-hear_all_example :
    running (hear_all true starting (opened "v1")).flows
    ≡ listed (hear_all true starting (opened "v1")).state.busy
running-hear_all_example = running-hear_all true "v1" starting

-- a ping, and then a check of port 22
abbrev probing : List PanelEvent
probing =
    type_target "10.0.0.5"
    ∷ click ping
    ∷ reply 2 (to_call (returned (printed "64 bytes")))
    ∷ click nc
    ∷ reply 2 (to_call (returned (printed "open")))
    ∷ []

-- The output is still that of the ping.
probing_shows_ping :
    probe_output (hear_all true probing (opened "v1")).state ≡ some (printed "64 bytes")
unfolding hear_all hear opened refresh_both act begin label receive advance_at advance settle_call
    finish is_enabled probe_output
probing_shows_ping = refl

-- The status of one VPN arrives after the selection of another.
late_status :
    (hear_all true
      (select "v2" ∷ reply 0 (to_status (returned (printed "exited"))) ∷ [])
      (opened "v1")).state.status
    ≡ some "exited"
unfolding hear_all hear opened refresh_both receive advance_at advance settle_status
    is_no_such_container output_text
late_status = refl
