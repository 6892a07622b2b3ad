-- ===== src/PingStatuses.antt =====
-- src/hooks/usePingStatus.ts: the poll that asks whether each host answers.
use davy_jones.Prelude.{
  ℕ, ◌+◌, ◌≡◌, arith, String, Bool, some, ◌==◌, nat_eq, if◌then◌else◌, Bool-cases, inl, inr,
}
use davy_jones.Prelude.Dict.{Dict, get, set, get-set}
use davy_jones.Types.{PingStatus, online, offline}
use davy_jones.Auth.{Answer, returned, thrown}

-- The readings; `epoch` counts the runs of the effect, and a run is cancelled when a new one starts.
pub record Pings : Type 0 where
  pub status : Dict PingStatus
  pub epoch : ℕ

unfoldable pub restart : Pings → Pings
restart s = record s { epoch = s.epoch + 1 }

-- what the answer or the failure of `api.hosts.ping` says
unfoldable pub reading : Answer Bool → PingStatus
reading (returned up) = if up then online else offline
reading (thrown _) = offline

-- The answer for `host_id` in run `epoch`. The code keeps the object where the reading is the same,
-- which spares a render.
unfoldable pub settle : ℕ → String → Answer Bool → Pings → Pings
unfolding reading set
settle epoch host_id a s =
    if nat_eq epoch s.epoch then record s { status = set s.status host_id (reading a) } else s

-- An answer to the current run sets the reading of its host and of no other, and a failure reads as
-- offline.
settle_lem :
    (host_id id : String) (a : Answer Bool) (s : Pings)
    → get (settle s.epoch host_id a s).status id
      ≡ (if host_id == id then some (reading a) else get s.status id)
unfolding settle
settle_lem host_id id a s = elim (Bool-cases (nat_eq s.epoch s.epoch)) [
  | inl e ↦ rw e (get-set s.status host_id id (reading a))
  | inr e ↦ absurd (ground arith)
]
