-- ===== src/Metrics/Polled.antt =====
-- src/hooks/useHostMetrics.ts: which hosts the current run of the effect has asked.
use mathlib.Core.List.{Memᴰ}
use mathlib.Core.List.Memᴰ
use davy_jones.Prelude.{
  ℕ, ◌+◌, String, true, ◌≡◌, refl, sym, ◌∙◌, List, [], ◌∷◌, All, ◌==◌, eq_iff, nat_eq, Bool-cases,
  inl, inr, mem-filter,
}
use davy_jones.Prelude.Dict.{Dict}
use davy_jones.Prelude.Split.{IsPiece, join-injective}
use davy_jones.Types.{Host, PingStatus}
use davy_jones.Auth.{Answer, returned, thrown}
use davy_jones.Layout.Build.{is_online}
use davy_jones.Metrics.{
  online_hosts, online_ids, Polling, MetricsEvent, render, tick, answer, collect_all, settle,
  restart, mounted, rendered, hear, hear_all,
}

-- The ids of the hosts are not empty and have no comma.
abbrev pub HasPlainIds : List Host → Type 0
HasPlainIds hosts = All (λ (h : Host). IsPiece "," h.id) hosts

online_hosts-IsPiece :
    (hosts : List Host) (ping : Dict PingStatus)
    → HasPlainIds hosts
    → All (IsPiece ",") (online_hosts hosts ping)
unfolding online_hosts
online_hosts-IsPiece [] ping h = tt
online_hosts-IsPiece (x ∷ xs) ping h = elim (Bool-cases (is_online ping x.id)) [
  | inl e ↦ rw e (h.0, online_hosts-IsPiece xs ping h.1)
  | inr e ↦ rw e (online_hosts-IsPiece xs ping h.1)
]

online_hosts-has :
    (hosts : List Host) (ping : Dict PingStatus) {x : Host}
    → Memᴰ x hosts
    → is_online ping x.id ≡ true
    → Memᴰ x.id (online_hosts hosts ping)
unfolding online_hosts
online_hosts-has hosts ping m e =
    Memᴰ.map (λ (h : Host). h.id) (mem-filter (λ (h : Host). is_online ping h.id) hosts m e)

module _ {M : Type 0} where
  abbrev pub HasPlainHosts : MetricsEvent M → Type 0
  HasPlainHosts (render hosts ping) = HasPlainIds hosts
  HasPlainHosts tick = Unit
  HasPlainHosts (answer run id a) = Unit

  abbrev pub WasAsked : Polling M → String → Type 0
  WasAsked s id = Memᴰ (s.run, id) s.requests

  -- The current run has asked each host that is online, and its key is that of the hosts on screen.
  record IsCurrent (s : Polling M) : Type 0 where
    plain : HasPlainIds s.hosts
    keyed : s.key ≡ online_ids s.hosts s.ping
    asked : {id : String} → Memᴰ id (online_hosts s.hosts s.ping) → WasAsked s id

  collect_all-asked :
      (s : Polling M) {id : String}
      → Memᴰ id (online_hosts s.hosts s.ping)
      → WasAsked (collect_all s) id
  unfolding collect_all
  collect_all-asked s m = Memᴰ.append_right s.requests (Memᴰ.map (λ (id : String). (s.run, id)) m)

  restart-IsCurrent : (s : Polling M) → HasPlainIds s.hosts → IsCurrent (restart s)
  unfolding restart collect_all
  restart-IsCurrent s h = record {
    plain = h;
    keyed = refl;
    asked =
        λ m. collect_all-asked (record s { key = online_ids s.hosts s.ping; run = s.run + 1 }) m;
  }

  mounted-IsCurrent :
      (hosts : List Host) (ping : Dict PingStatus)
      → HasPlainIds hosts
      → IsCurrent (mounted {M = M} hosts ping)
  unfolding mounted
  mounted-IsCurrent hosts ping h =
      restart-IsCurrent
        (record { hosts = hosts; ping = ping; metrics = []; key = ""; run = 0; requests = [] }) h

  -- A new picture of the hosts, for which the effect does not run, has the same hosts online.
  rendered-IsCurrent :
      (hosts : List Host) (ping : Dict PingStatus) (s : Polling M)
      → HasPlainIds hosts
      → IsCurrent s
      → IsCurrent (rendered (record s { hosts = hosts; ping = ping }))
  unfolding rendered
  rendered-IsCurrent hosts ping s h c = elim (Bool-cases (online_ids hosts ping == s.key)) [
    | inl e ↦
        let kept = (eq_iff (online_ids hosts ping) s.key).0 e in
        let same : online_hosts hosts ping ≡ online_hosts s.hosts s.ping =
          unfold online_ids in
          join-injective "," (online_hosts hosts ping) (online_hosts s.hosts s.ping)
            (online_hosts-IsPiece hosts ping h) (online_hosts-IsPiece s.hosts s.ping c.plain)
            (kept ∙ c.keyed) in
        rw e (record { plain = h; keyed = sym kept; asked = λ m. c.asked (rw same at m) })
    | inr e ↦ rw e (restart-IsCurrent (record s { hosts = hosts; ping = ping }) h)
  ]

  settle-IsCurrent :
      (run : ℕ) (id : String) (a : Answer M) (s : Polling M)
      → IsCurrent s
      → IsCurrent (settle run id a s)
  unfolding settle
  settle-IsCurrent run id (returned result) s c = elim (Bool-cases (nat_eq run s.run)) [
    | inl e ↦ rw e (record { plain = c.plain; keyed = c.keyed; asked = c.asked })
    | inr e ↦ rw e c
  ]
  settle-IsCurrent run id (thrown e) s c = c

  hear-IsCurrent :
      (e : MetricsEvent M) (s : Polling M) → HasPlainHosts e → IsCurrent s → IsCurrent (hear e s)
  unfolding hear collect_all
  hear-IsCurrent (render hosts ping) s h c = rendered-IsCurrent hosts ping s h c
  hear-IsCurrent tick s h c = record {
    plain = c.plain;
    keyed = c.keyed;
    asked = λ m. collect_all-asked s m;
  }
  hear-IsCurrent (answer run id a) s h c = settle-IsCurrent run id a s c

  hear_all-IsCurrent :
      (es : List (MetricsEvent M)) (s : Polling M)
      → All HasPlainHosts es
      → IsCurrent s
      → IsCurrent (hear_all es s)
  unfolding hear_all
  hear_all-IsCurrent [] s h c = c
  hear_all-IsCurrent (e ∷ es) s h c =
      hear_all-IsCurrent es (hear e s) h.1 (hear-IsCurrent e s h.0 c)

  -- Whatever is rendered, answered and polled: each host that is online is asked for its metrics in the
  -- current run of the effect, without a wait for the interval. The effect depends on the ids of these
  -- hosts joined by commas, and no id is empty or has a comma.
  pub hear_all-WasAsked :
      (hosts : List Host) (ping : Dict PingStatus) (es : List (MetricsEvent M)) (x : Host)
      → HasPlainIds hosts
      → All HasPlainHosts es
      → Memᴰ x (hear_all es (mounted hosts ping)).hosts
      → is_online (hear_all es (mounted hosts ping)).ping x.id ≡ true
      → WasAsked (hear_all es (mounted hosts ping)) x.id
  hear_all-WasAsked hosts ping es x h k m e =
      let s = hear_all es (mounted hosts ping) in
      let c : IsCurrent s =
        hear_all-IsCurrent es (mounted hosts ping) k (mounted-IsCurrent hosts ping h) in
      c.asked (online_hosts-has s.hosts s.ping m e)
