-- ===== src/Diagnostics.antt =====
-- src/components/Vpn/VpnDiagnostics.tsx: the panel of a VPN's container, with the requests that it waits
-- for. An asynchronous function that waits is a value, a flow; it resumes when its answer comes.
pub mod Moves
pub mod Busy
pub mod Tests
use davy_jones.Prelude.{
  ℕ, zero, suc, String, ◌==◌, Bool, true, false, not, ◌&&◌, ◌||◌, Option, none, some, List, [], ◌∷◌,
  ◌++◌, if◌then◌else◌,
}
use davy_jones.Prelude.Integers.{ℤ, pos, negsuc}
use davy_jones.Prelude.Text.{includes, truthy}
use davy_jones.Prelude.Trim.{trim}
use davy_jones.Auth.{Answer, returned, thrown}
use davy_jones.Forms.Vpns.{CommandResult}
use davy_jones.Forms.Building.{is_nonzero}

unfoldable pub is_no_such_container : CommandResult → Bool
unfolding includes
is_no_such_container r = includes "No such container" r.stderr

pub data Action : Type 0 where
  start stop ping nc : Action

-- what `busy` holds while the action runs
unfoldable pub label : Action → String
label start = "start"
label stop = "stop"
label ping = "ping"
label nc = "nc"

pub record State : Type 0 where
  pub status : Option String
  pub busy : Option String
  pub action_result : Option CommandResult
  pub logs : Option CommandResult
  pub ping_target : String
  pub ping_result : Option CommandResult
  pub nc_result : Option CommandResult

-- `s || t`
abbrev pub or_text : String → String → String
or_text s t = if s == "" then t else s

-- `res.stdout || res.stderr || res.error || "unknown"`
unfoldable pub output_text : CommandResult → String
output_text r =
    or_text r.stdout
      (or_text r.stderr (elim r.error [ none ↦ "unknown" | some e ↦ or_text e "unknown" ]))

-- `refreshStatus` and `refreshLogs`, from the answer on
unfoldable pub settle_status : Answer CommandResult → State → State
unfolding is_no_such_container output_text
settle_status (returned r) s = record s {
  status = some (if is_no_such_container r then "not created" else output_text r);
}
settle_status (thrown e) s = record s { status = some e }

unfoldable pub settle_logs : Answer CommandResult → State → State
settle_logs (returned r) s = record s { logs = some r }
settle_logs (thrown e) s = record s {
  logs = some (record { stdout = ""; stderr = e; exit_code = negsuc 0; error = none });
}

-- `res.exitCode !== 0 || res.error`
unfoldable pub has_failed : CommandResult → Bool
has_failed r = is_nonzero r.exit_code || truthy r.error

unfoldable pub show_failure : CommandResult → State → State
unfolding has_failed
show_failure r s = if has_failed r then record s { action_result = some r } else s

-- the `finally`
unfoldable pub finish : State → State
finish s = record s { busy = none }

-- What waits, each for the VPN of its start: a refresh, the call of an action, or the two refreshes
-- behind a call, with whether the status and the logs are still waited for.
pub data Flow : Type 0 where
  status_refresh logs_refresh : String → Flow
  acting : Action → String → Flow
  following : Action → String → Bool → Bool → Flow

-- `Promise.all` and the `finally`
unfoldable pub follow : Action → String → Bool → Bool → State → State × List Flow
unfolding finish
follow a vpn false false s = (finish s, [])
follow a vpn true logs s = (s, following a vpn true logs ∷ [])
follow a vpn false true s = (s, following a vpn false true ∷ [])

-- the handlers from the answer to their call on
unfoldable pub settle_call : Action → String → Answer CommandResult → State → State × List Flow
unfolding show_failure finish follow
settle_call a vpn (thrown e) s = (finish s, [])
settle_call start vpn (returned r) s = follow start vpn true true (show_failure r s)
settle_call stop vpn (returned r) s = follow stop vpn true true (show_failure r s)
settle_call ping vpn (returned r) s = (finish (record s { ping_result = some r }), [])
settle_call nc vpn (returned r) s = (finish (record s { nc_result = some r }), [])

pub data Reply : Type 0 where
  to_call to_status to_logs : Answer CommandResult → Reply

-- A flow goes on with the answer that it waits for.
unfoldable pub advance : Reply → Flow → State → State × List Flow
unfolding settle_status settle_logs settle_call follow
advance (to_status r) (status_refresh vpn) s = (settle_status r s, [])
advance (to_logs r) (logs_refresh vpn) s = (settle_logs r s, [])
advance (to_call r) (acting a vpn) s = settle_call a vpn r s
advance (to_status r) (following a vpn true logs) s = follow a vpn false logs (settle_status r s)
advance (to_logs r) (following a vpn status true) s = follow a vpn status false (settle_logs r s)
advance r f s = (s, f ∷ [])

-- the answer to the flow with this number
unfoldable pub advance_at : ℕ → Reply → List Flow → State → State × List Flow
unfolding advance
advance_at n r [] s = (s, [])
advance_at zero r (f ∷ fs) s = let (t, gs) = advance r f s in (t, gs ++ fs)
advance_at (suc n) r (f ∷ fs) s = let (t, gs) = advance_at n r fs s in (t, f ∷ gs)

unfoldable pub is_running : State → Bool
unfolding trim
is_running s = elim s.status [ none ↦ false | some status ↦ trim status == "running" ]

-- Whether the button of an action is on screen and not disabled.
unfoldable pub is_enabled : Bool → Action → State → Bool
unfolding trim
is_enabled can_write start s = can_write && elim s.busy [ none ↦ true | some b ↦ false ]
is_enabled can_write stop s = can_write && elim s.busy [ none ↦ true | some b ↦ false ]
is_enabled can_write ping s =
    not (elim s.busy [ none ↦ false | some b ↦ true ] || trim s.ping_target == "" || not can_write)
is_enabled can_write nc s =
    not (elim s.busy [ none ↦ false | some b ↦ true ] || trim s.ping_target == "" || not can_write)

-- the handlers up to their call
unfoldable pub begin : Action → State → State
unfolding label
begin start s = record s { busy = some (label start); action_result = none }
begin stop s = record s { busy = some (label stop); action_result = none }
begin ping s = record s { busy = some (label ping) }
begin nc s = record s { busy = some (label nc) }

-- the output under the ping and the check of port 22
unfoldable pub probe_output : State → Option CommandResult
probe_output s = elim s.ping_result [ none ↦ s.nc_result | some r ↦ some r ]

pub record Panel : Type 0 where
  pub state : State
  pub vpn : String
  pub flows : List Flow

pub data PanelEvent : Type 0 where
  -- another VPN is selected
  select : String → PanelEvent
  -- the two buttons that refresh
  refresh refresh_logs : PanelEvent
  type_target : String → PanelEvent
  click : Action → PanelEvent
  reply : ℕ → Reply → PanelEvent

-- the effect on the id of the VPN, and the first button
unfoldable pub refresh_both : Panel → Panel
refresh_both p = record p { flows = p.flows ++ status_refresh p.vpn ∷ logs_refresh p.vpn ∷ [] }

-- the panel of a VPN when it comes to the screen
unfoldable pub opened : String → Panel
unfolding refresh_both
opened vpn = refresh_both (record {
  state = record {
    status = none;
    busy = none;
    action_result = none;
    logs = none;
    ping_target = "";
    ping_result = none;
    nc_result = none;
  };
  vpn = vpn;
  flows = [];
})

unfoldable pub act : Action → Panel → Panel
unfolding begin
act a p = record p { state = begin a p.state; flows = p.flows ++ acting a p.vpn ∷ [] }

unfoldable pub receive : ℕ → Reply → Panel → Panel
unfolding advance_at
receive n r p = let (t, gs) = advance_at n r p.flows p.state in record p { state = t; flows = gs }

unfoldable pub hear : Bool → PanelEvent → Panel → Panel
unfolding refresh_both act is_enabled receive
hear can_write (select vpn) p = refresh_both (record p { vpn = vpn })
hear can_write refresh p = refresh_both p
hear can_write refresh_logs p = record p { flows = p.flows ++ logs_refresh p.vpn ∷ [] }
hear can_write (type_target t) p = record p { state = record p.state { ping_target = t } }
hear can_write (click a) p = if is_enabled can_write a p.state then act a p else p
hear can_write (reply n r) p = receive n r p

unfoldable pub hear_all : Bool → List PanelEvent → Panel → Panel
unfolding hear
hear_all can_write [] p = p
hear_all can_write (e ∷ es) p = hear_all can_write es (hear can_write e p)
