-- ===== src/Discovery/Scans.antt =====
-- src/components/Layout/DiscoverServices.tsx: sets of names, and what a scan selects.
use davy_jones.Prelude.{
  String, ◌==◌, ◌≡◌, refl, sym, ◌∙◌, arith, true, false, not, ◌&&◌, ◌||◌, List, [], ◌∷◌, ◌++◌,
  filter, inl, inr, Bool-cases, eq_iff, eq_refl,
}
use davy_jones.Auth.{returned}
use davy_jones.Discovery.{has, add, add_all, set_of, Found, State, settle_scan}

-- No name stands twice.
abbrev pub IsDistinct : List String → Type 0
IsDistinct [] = Unit
IsDistinct (x ∷ xs) = (has xs x ≡ false) × IsDistinct xs

pub has-append : (xs ys : List String) (q : String) → has (xs ++ ys) q ≡ has xs q || has ys q
has-append [] ys q = refl
has-append (x ∷ xs) ys q = ground (arith, has-append xs ys q)

pub append-IsDistinct :
    (xs ys : List String)
    → IsDistinct xs
    → IsDistinct ys
    → ((q : String) → has ys q ≡ true → has xs q ≡ false)
    → IsDistinct (xs ++ ys)
append-IsDistinct [] ys hx hy apart = hy
append-IsDistinct (x ∷ xs) ys hx hy apart =
    let not_there : has ys x ≡ false = ground (arith, apart x, eq_refl x) in
    (
      has-append xs ys x ∙ rw (hx.0, not_there) refl,
      append-IsDistinct xs ys hx.1 hy (λ q h. ground (arith, apart q h)),
    )

pub IsDistinct-append_left : (xs ys : List String) → IsDistinct (xs ++ ys) → IsDistinct xs
IsDistinct-append_left [] ys h = tt
IsDistinct-append_left (x ∷ xs) ys h =
    (ground (arith, has-append xs ys x), IsDistinct-append_left xs ys h.1)

add-IsDistinct : (x : String) (s : List String) → IsDistinct s → IsDistinct (add x s)
unfolding add
add-IsDistinct x s h = elim (Bool-cases (has s x)) [
  | inl e ↦ rw e h
  | inr e ↦ rw e (
      append-IsDistinct s (x ∷ []) h (refl, tt)
        (λ q found. let same : x ≡ q = (eq_iff x q).0 (ground arith) in rw (sym same) e))
]

pub has-add : (x : String) (s : List String) (q : String) → has (add x s) q ≡ (x == q) || has s q
unfolding add
has-add x s q = elim (Bool-cases (has s x)) [
  | inl e ↦ elim (Bool-cases (x == q)) [
    | inl f ↦ let same : x ≡ q = (eq_iff x q).0 f in rw (e, f) (rw (sym same) e)
    | inr f ↦ rw (e, f) refl
  ]
  | inr e ↦ rw (e, has-append s (x ∷ []) q) (ground arith)
]

add_all-IsDistinct : (xs s : List String) → IsDistinct s → IsDistinct (add_all xs s)
unfolding add_all
add_all-IsDistinct [] s h = h
add_all-IsDistinct (x ∷ xs) s h = add_all-IsDistinct xs (add x s) (add-IsDistinct x s h)

has-add_all : (xs s : List String) (q : String) → has (add_all xs s) q ≡ has xs q || has s q
unfolding add_all
has-add_all [] s q = refl
has-add_all (x ∷ xs) s q = ground (arith, has-add_all xs (add x s) q, has-add x s q)

pub set_of-IsDistinct : (xs : List String) → IsDistinct (set_of xs)
unfolding set_of
set_of-IsDistinct xs = add_all-IsDistinct xs [] tt

pub has-set_of : (xs : List String) (q : String) → has (set_of xs) q ≡ has xs q
unfolding set_of
has-set_of xs q = ground (arith, has-add_all xs [] q)

has-filter :
    (known xs : List String) (q : String)
    → has (filter (λ n. not (has known n)) xs) q ≡ has xs q && not (has known q)
has-filter known [] q = refl
has-filter known (x ∷ xs) q = elim (Bool-cases (x == q)) [
  | inl e ↦
      let same : x ≡ q = (eq_iff x q).0 e in
      elim (Bool-cases (has known q)) [
        | inl f ↦ rw (same, f, has-filter known xs q, f) (ground arith)
        | inr f ↦ rw (same, f, eq_refl q) refl
      ]
  | inr e ↦ elim (Bool-cases (has known x)) [
    | inl f ↦ rw (f, e) (has-filter known xs q)
    | inr f ↦ rw (f, e) (has-filter known xs q)
  ]
]

-- A scan selects each name that it has found and that the host has not yet, once.
pub settle_scan_lem :
    (existing : List String) (res : Found) (s : State)
    → IsDistinct (settle_scan existing (returned res) s).selected
      × ((q : String)
          → has (settle_scan existing (returned res) s).selected q
            ≡ has res.names q && not (has existing q))
unfolding settle_scan
settle_scan_lem existing res s = (
  set_of-IsDistinct (filter (λ n. not (has existing n)) res.names),
  λ q.
      has-set_of (filter (λ n. not (has existing n)) res.names) q ∙ has-filter existing res.names q,
)
