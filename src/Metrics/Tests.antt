-- ===== src/Metrics/Tests.antt =====
-- Tests of the metrics poll.
use mathlib.Core.List.Memᴰ
use davy_jones.Prelude.{String, ◌≡◌, refl, none, List, [], ◌∷◌}
use davy_jones.Prelude.Dict.{Dict, get, set}
use davy_jones.Prelude.Text.{join, concat, has_char}
use davy_jones.Types.{Host, PingStatus, online, offline}
use davy_jones.Auth.{returned, thrown}
use davy_jones.Layout.Build.{is_online}
use davy_jones.Metrics.{
  online_hosts, online_ids, MetricsEvent, render, tick, answer, collect_all, settle, restart,
  mounted, rendered, hear, hear_all,
}
use davy_jones.Metrics.Polled.{WasAsked, hear_all-WasAsked}

abbrev host : String → Host
host id = record {
  id = id;
  name = id;
  ip = "10.0.0.1";
  credential_id = "c1";
  vpn_id = none;
  port = none;
  project_id = none;
}

abbrev hosts : List Host
hosts = host "h1" ∷ host "h2" ∷ []

-- one host is up, then both
abbrev ping : Dict PingStatus
ping = ("h1", online) ∷ ("h2", offline) ∷ []

abbrev ping_later : Dict PingStatus
ping_later = ("h1", online) ∷ ("h2", online) ∷ []

-- The first answer of the first run comes too late.
abbrev events : List (MetricsEvent String)
events =
    tick
    ∷ render hosts ping
    ∷ render hosts ping_later
    ∷ answer 1 "h1" (returned "old")
    ∷ answer 2 "h2" (returned "new")
    ∷ answer 2 "h1" (thrown "timeout")
    ∷ []

requests_of_events :
    (hear_all events (mounted hosts ping)).requests
    ≡ (1, "h1") ∷ (1, "h1") ∷ (2, "h1") ∷ (2, "h2") ∷ []
unfolding hear_all hear mounted rendered restart collect_all settle online_ids online_hosts
    is_online get set join concat
requests_of_events = refl

metrics_of_events : (hear_all events (mounted hosts ping)).metrics ≡ ("h2", "new") ∷ []
unfolding hear_all hear mounted rendered restart collect_all settle online_ids online_hosts
    is_online get set join concat
metrics_of_events = refl

hear_all-WasAsked_example : WasAsked (hear_all events (mounted hosts ping)) "h2"
unfolding hear_all hear mounted rendered restart collect_all settle online_ids online_hosts
    is_online get set join concat has_char
hear_all-WasAsked_example =
    hear_all-WasAsked hosts ping events (host "h2") ((refl, λ e. cc), ((refl, λ e. cc), tt))
      (
        tt,
        (
          ((refl, λ e. cc), ((refl, λ e. cc), tt)),
          (((refl, λ e. cc), ((refl, λ e. cc), tt)), (tt, (tt, (tt, tt)))),
        ),
      )
      (Memᴰ.tail (Memᴰ.head refl)) refl
