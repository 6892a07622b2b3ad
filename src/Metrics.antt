-- ===== src/Metrics.antt =====
-- src/hooks/useHostMetrics.ts: the poll of the hosts' metrics. What the server says of one host is a
-- value of a type that is a parameter.
pub mod Polled
pub mod Tests
use davy_jones.Prelude.{
  ℕ, ◌+◌, String, List, [], ◌∷◌, ◌++◌, ◌==◌, nat_eq, if◌then◌else◌, map, filter,
}
use davy_jones.Prelude.Dict.{Dict, set}
use davy_jones.Prelude.Text.{join}
use davy_jones.Types.{Host, PingStatus}
use davy_jones.Auth.{Answer, returned, thrown}
use davy_jones.Layout.Build.{is_online}

-- the ids of the hosts that ping says are reachable
unfoldable pub online_hosts : List Host → Dict PingStatus → List String
online_hosts hosts ping =
    map (λ (h : Host). h.id) (filter (λ (h : Host). is_online ping h.id) hosts)

-- `onlineIds`, on which the effect depends
unfoldable pub online_ids : List Host → Dict PingStatus → String
unfolding online_hosts
online_ids hosts ping = join "," (online_hosts hosts ping)

module _ (M : Type 0) where
  -- The refs, the readings, the key of the last run of the effect and the count of its runs; a run is
  -- cancelled when a new one starts. `requests` has the calls of `api.hosts.metrics`, each with its run.
  pub record Polling : Type 0 where
    pub hosts : List Host
    pub ping : Dict PingStatus
    pub metrics : Dict M
    pub key : String
    pub run : ℕ
    pub requests : List (ℕ × String)

  pub data MetricsEvent : Type 0 where
    -- a render of the component
    render : List Host → Dict PingStatus → MetricsEvent
    -- the interval
    tick : MetricsEvent
    -- the answer to a request of a run for a host
    answer : ℕ → String → Answer M → MetricsEvent

module _ {M : Type 0} where
  -- `collectAll` up to the answers
  unfoldable pub collect_all : Polling M → Polling M
  unfolding online_hosts
  collect_all s = record s {
    requests = s.requests ++ map (λ (id : String). (s.run, id)) (online_hosts s.hosts s.ping);
  }

  -- what follows the answer, inside the `try` and in the `catch`
  unfoldable pub settle : ℕ → String → Answer M → Polling M → Polling M
  unfolding set
  settle run id (returned result) s =
      if nat_eq run s.run then record s { metrics = set s.metrics id result } else s
  settle run id (thrown _) s = s

  -- the effect: the cleanup of the run before and the start of the next one
  unfoldable pub restart : Polling M → Polling M
  unfolding collect_all online_ids
  restart s = collect_all (record s { key = online_ids s.hosts s.ping; run = s.run + 1 })

  -- the first render and its effect
  unfoldable pub mounted : List Host → Dict PingStatus → Polling M
  unfolding restart
  mounted hosts ping =
      restart
        (record { hosts = hosts; ping = ping; metrics = []; key = ""; run = 0; requests = [] })

  -- a later render: the effect runs when the key has changed
  unfoldable pub rendered : Polling M → Polling M
  unfolding restart online_ids
  rendered s = if online_ids s.hosts s.ping == s.key then s else restart s

  unfoldable pub hear : MetricsEvent M → Polling M → Polling M
  unfolding rendered collect_all settle
  hear (render hosts ping) s = rendered (record s { hosts = hosts; ping = ping })
  hear tick s = collect_all s
  hear (answer run id a) s = settle run id a s

  unfoldable pub hear_all : List (MetricsEvent M) → Polling M → Polling M
  unfolding hear
  hear_all [] s = s
  hear_all (e ∷ es) s = hear_all es (hear e s)
