-- ===== src/Canvas/Polls.antt =====
-- The canvas over time: what a reload shows, and what a poll leaves alone.
use davy_jones.Prelude.{
  String, true, false, ◌≡◌, refl, sym, ap, ◌∙◌, Option, none, some, List, [], ◌∷◌, map, ◌==◌,
  Bool-cases, ◌⊎◌, inl, inr, eq_iff, All, Exists, Exists,
}
use mathlib.Core.Option
use mathlib.Core.Bool.{false≢true}
use mathlib.Core.List.Memᴰ
use davy_jones.Prelude.Dict.{Dict, get, set, get-set}
use davy_jones.Layout.Model.{Position, Node}
use davy_jones.Canvas.{
  Placed, places_from, drag_stop, by_id_from, by_id, resync, sync, Screen, apply_layout,
}

module _ {P Z M : Type 0} where
  -- the place of the last node with the id
  abbrev pub place_of : List (Placed P Z M) → String → Option P
  place_of nodes id = Option.map (λ (n : Placed P Z M). n.place) (get (by_id nodes) id)

  get-places_from :
      (m : Dict P) (d : Dict (Placed P Z M)) (ns : List (Placed P Z M)) (id : String)
      → get m id ≡ Option.map (λ (n : Placed P Z M). n.place) (get d id)
      → get (places_from m ns) id
        ≡ Option.map (λ (n : Placed P Z M). n.place) (get (by_id_from d ns) id)
  unfolding places_from by_id_from
  get-places_from m d [] id h = h
  get-places_from m d (n ∷ ns) id h =
      get-places_from (set m n.node.id n.place) (set d n.node.id n) ns id
        (elim (Bool-cases (n.node.id == id)) [
          | inl e ↦ rw (get-set m n.node.id id n.place, get-set d n.node.id id n, e) refl
          | inr e ↦ rw (get-set m n.node.id id n.place, get-set d n.node.id id n, e) h
        ])

  -- What a drag saves for an id is the place of the node on screen.
  pub get-drag_stop :
      (nodes : List (Placed P Z M)) (id : String) → get (drag_stop nodes) id ≡ place_of nodes id
  unfolding drag_stop by_id get
  get-drag_stop nodes id = get-places_from [] [] nodes id refl

module _ {P Z M : Type 0} (at : Position → P) where
  abbrev entry : Placed P Z M → String × P
  entry n = (n.node.id, n.place)

  abbrev pub places : List (Placed P Z M) → List (String × P)
  places = map entry

  resync_reload :
      (s : Option P) (e o : Option (Placed P Z M)) (n : Node M)
      → s ≡ Option.map (λ (m : Placed P Z M). m.place) e
      → entry (resync at true s o n) ≡ entry (resync at false s e n)
  unfolding resync
  resync_reload s none o n h = refl
  resync_reload s (some e) o n h = rw h refl

  -- A reload after a drag shows every node where the page that stays open shows it, whatever the new
  -- layout is: the first pass over the saved places and a later pass over the nodes on screen agree.
  pub sync-drag_stop :
      (nodes fresh : List (Placed P Z M)) (layout : List (Node M))
      → places (sync at true (drag_stop nodes) fresh layout)
        ≡ places (sync at false (drag_stop nodes) nodes layout)
  unfolding sync
  sync-drag_stop nodes fresh [] = refl
  sync-drag_stop nodes fresh (n ∷ ns) =
      let here =
        resync_reload (get (drag_stop nodes) n.id) (get (by_id nodes) n.id) (get (by_id fresh) n.id)
          n (get-drag_stop nodes n.id) in
      let rest = places (sync at true (drag_stop nodes) fresh ns) in
      ap (λ x. x ∷ rest) here
      ∙ ap
          (λ r. entry (resync at false (get (drag_stop nodes) n.id) (get (by_id nodes) n.id) n) ∷ r)
          (sync-drag_stop nodes fresh ns)

module _ {P Z M : Type 0} (id : String) (p : P) where
  -- every node with the id is at `p`
  abbrev StandsAt : List (Placed P Z M) → Type 0
  StandsAt = All (λ n. n.node.id ≡ id → n.place ≡ p)

  place_of-by_id_from :
      (d : Dict (Placed P Z M)) (ns : List (Placed P Z M))
      → StandsAt ns
      → (Option.map (λ (n : Placed P Z M). n.place) (get d id) ≡ some p)
        ⊎ Exists (λ (n : Placed P Z M). n.node.id ≡ id) ns
      → Option.map (λ (n : Placed P Z M). n.place) (get (by_id_from d ns) id) ≡ some p
  unfolding by_id_from
  place_of-by_id_from d [] a (inl h) = h
  place_of-by_id_from d [] a (inr (n, m, e)) = absurd (Memᴰ.not-nil m)
  place_of-by_id_from d (n ∷ ns) a h = elim (Bool-cases (n.node.id == id)) [
    | inl e ↦
        place_of-by_id_from (set d n.node.id n) ns a.1
          (inl (rw (get-set d n.node.id id n, e) (ap some (a.0 ((eq_iff n.node.id id).0 e)))))
    | inr e ↦ place_of-by_id_from (set d n.node.id n) ns a.1 (elim h [
      | inl there ↦ inl (rw (get-set d n.node.id id n, e) there)
      | inr (k, m, same) ↦ elim (Memᴰ.cases_cons m) [
        | inl q ↦ absurd (
            false≢true (
              sym e
              ∙ (eq_iff n.node.id id).1 (ap (λ (x : Placed P Z M). x.node.id) (sym q) ∙ same)))
        | inr later ↦ inr (k, later, same)
      ]
    ])
  ]

  module _ (at : Position → P) (saved : Dict P) (prev : List (Placed P Z M)) where
    resync_stands :
        (e : Option (Placed P Z M)) (n : Node M) (o : Option P)
        → Option.map (λ (k : Placed P Z M). k.place) e ≡ some p
        → (resync at false o e n).place ≡ p
    unfolding resync
    resync_stands none n o h = cc
    resync_stands (some e) n o h = cc

    resync_id :
        (e : Option (Placed P Z M)) (n : Node M) (o : Option P)
        → (resync at false o e n).node.id ≡ n.id
    unfolding resync
    resync_id none n o = refl
    resync_id (some e) n o = refl

    sync-StandsAt :
        (layout : List (Node M))
        → place_of prev id ≡ some p
        → StandsAt (sync at false saved prev layout)
    unfolding sync
    sync-StandsAt [] h = tt
    sync-StandsAt (n ∷ ns) h = (
      λ same. resync_stands (get (by_id prev) n.id) n (get saved n.id) (
          ap (place_of prev) (sym (resync_id (get (by_id prev) n.id) n (get saved n.id)) ∙ same)
          ∙ h),
      sync-StandsAt ns h,
    )

    sync_has :
        (layout : List (Node M))
        → Exists (λ (n : Node M). n.id ≡ id) layout
        → Exists (λ (n : Placed P Z M). n.node.id ≡ id) (sync at false saved prev layout)
    unfolding sync
    sync_has layout (n, m, e) =
        (_, Memᴰ.map _ m, resync_id (get (by_id prev) n.id) n (get saved n.id) ∙ e)

    -- one pass over a layout that has the id
    place_of-sync :
        (layout : List (Node M))
        → Exists (λ (n : Node M). n.id ≡ id) layout
        → place_of prev id ≡ some p
        → place_of (sync at false saved prev layout) id ≡ some p
    unfolding by_id
    place_of-sync layout found h =
        place_of-by_id_from [] (sync at false saved prev layout) (sync-StandsAt layout h)
          (inr (sync_has layout found))

-- the same pass with each layout of a list, in its order
unfoldable pub polls :
    {P Z M : Type 0} → (Position → P) → List (Dict P × List (Node M)) → Screen P Z M → Screen P Z M
unfolding apply_layout
polls at [] s = s
polls at ((saved, layout) ∷ ps) s = polls at ps (apply_layout at true saved layout s)

-- However often the data is polled, and whatever is saved meanwhile: a node that has its place on
-- screen keeps it, as long as each new layout has a node with its id.
pub place_of-polls :
    {P Z M : Type 0} (at : Position → P) (id : String) (p : P) (ps : List (Dict P × List (Node M)))
    (s : Screen P Z M)
    → s.hydrated ≡ true
    → place_of s.nodes id ≡ some p
    → All (λ (q : Dict P × List (Node M)). Exists (λ (n : Node M). n.id ≡ id) q.1) ps
    → place_of (polls at ps s).nodes id ≡ some p
unfolding polls apply_layout
place_of-polls at id p [] s e h a = h
place_of-polls at id p ((saved, layout) ∷ ps) s e h a = rw e (
    place_of-polls at id p ps
      (record { nodes = sync at false saved s.nodes layout; hydrated = true }) refl
      (place_of-sync id p at saved s.nodes layout a.0 h) a.1)
