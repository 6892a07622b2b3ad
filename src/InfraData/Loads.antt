-- ===== src/InfraData/Loads.antt =====
-- What is on screen is the last data that arrived, whatever fails.
use davy_jones.Prelude.{
  Bool, true, false, ◌≡◌, refl, ap, ◌∙◌, Option, none, some, List, [], ◌∷◌, or_else,
}
use davy_jones.Types.{IpsecCredential}
use davy_jones.Auth.{Answer, returned, thrown}
use davy_jones.InfraData.{
  Infra, Lists, begin_reload, settle_lists, settle_reload, switch_project, change, Happening,
  switched, asked, arrived, changed, happen, happen_all,
}

-- the five lists that are on screen
abbrev pub shown : Infra → Lists
shown s = record {
  vpns = s.vpns;
  hosts = s.hosts;
  services = s.services;
  credentials = s.credentials;
  saved_commands = s.saved_commands;
}

-- the lists that one happening brings
abbrev pub brought : Happening → Option Lists
brought switched = none
brought asked = none
brought (arrived r) = elim r.joined [ returned l ↦ some l | thrown _ ↦ none ]
brought (changed (returned _) r) = elim r.joined [ returned l ↦ some l | thrown _ ↦ none ]
brought (changed (thrown _) r) = none

-- the lists that were brought last, or those from before
abbrev pub last_brought : List Happening → Lists → Lists
last_brought [] l = l
last_brought (h ∷ hs) l = last_brought hs (or_else (brought h) l)

-- whether lists were brought since the last switch
abbrev fresh_after : Happening → Bool → Bool
fresh_after switched b = false
fresh_after asked b = b
fresh_after (arrived r) b = elim r.joined [ returned _ ↦ true | thrown _ ↦ b ]
fresh_after (changed (returned _) r) b = elim r.joined [ returned _ ↦ true | thrown _ ↦ b ]
fresh_after (changed (thrown _) r) b = b

abbrev pub is_fresh : List Happening → Bool → Bool
is_fresh [] b = b
is_fresh (h ∷ hs) b = is_fresh hs (fresh_after h b)

settle_shown :
    (a : Answer Lists) (ipsec : List IpsecCredential) (s : Infra)
    → shown (settle_lists a ipsec s)
      ≡ or_else (elim a [ returned l ↦ some l | thrown _ ↦ none ]) (shown s)
unfolding settle_lists
settle_shown (returned l) ipsec s = refl
settle_shown (thrown e) ipsec s = refl

settle_fresh :
    (a : Answer Lists) (ipsec : List IpsecCredential) (s : Infra)
    → (settle_lists a ipsec s).loaded_once ≡ elim a [ returned _ ↦ true | thrown _ ↦ s.loaded_once ]
unfolding settle_lists
settle_fresh (returned l) ipsec s = refl
settle_fresh (thrown e) ipsec s = refl

shown-happen : (h : Happening) (s : Infra) → shown (happen h s) ≡ or_else (brought h) (shown s)
unfolding happen switch_project begin_reload change settle_reload
shown-happen switched s = refl
shown-happen asked s = refl
shown-happen (arrived r) s = settle_shown r.joined _ s
shown-happen (changed (returned _) r) s = settle_shown r.joined _ (begin_reload s)
shown-happen (changed (thrown _) r) s = refl

fresh-happen : (h : Happening) (s : Infra) → (happen h s).loaded_once ≡ fresh_after h s.loaded_once
unfolding happen switch_project begin_reload change settle_reload
fresh-happen switched s = refl
fresh-happen asked s = refl
fresh-happen (arrived r) s = settle_fresh r.joined _ s
fresh-happen (changed (returned _) r) s = settle_fresh r.joined _ (begin_reload s)
fresh-happen (changed (thrown _) r) s = refl

-- Whatever happens: the lists on screen are the last that arrived, so that no failure of a reload, of
-- a change or of the IPsec list takes them away; and `loadedOnce` says whether lists have arrived
-- since the last switch. For which project they were asked plays no part.
pub shown-happen_all :
    (hs : List Happening) (s : Infra)
    → (shown (happen_all hs s) ≡ last_brought hs (shown s))
      × ((happen_all hs s).loaded_once ≡ is_fresh hs s.loaded_once)
unfolding happen_all
shown-happen_all [] s = (refl, refl)
shown-happen_all (h ∷ hs) s =
    let (lists, once) = shown-happen_all hs (happen h s) in
    (lists ∙ ap (last_brought hs) (shown-happen h s), once ∙ ap (is_fresh hs) (fresh-happen h s))
