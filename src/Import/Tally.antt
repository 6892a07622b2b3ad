-- ===== src/Import/Tally.antt =====
-- What holds of an import that has not failed.
use davy_jones.Prelude.{List}
use davy_jones.Import.Run.{Request, Outcome, done, broke, and_then}

-- `P` holds where the outcome is a value.
abbrev pub OnDone : {A : Type 0} → (A → List Request → Type 0) → Outcome A → Type 0
OnDone P (done a log) = P a log
OnDone P (broke e log) = Unit

pub OnDone-and_then :
    {A B : Type 0} (P : A → List Request → Type 0) (Q : B → List Request → Type 0) (o : Outcome A)
    (next : A → List Request → Outcome B)
    → OnDone P o
    → ((a : A) (log : List Request) → P a log → OnDone Q (next a log))
    → OnDone Q (and_then o next)
unfolding and_then
OnDone-and_then P Q (done a log) next h k = k a log h
OnDone-and_then P Q (broke e log) next h k = tt

pub OnDone-imp :
    {A : Type 0} (P Q : A → List Request → Type 0) (o : Outcome A)
    → ((a : A) (log : List Request) → P a log → Q a log)
    → OnDone P o
    → OnDone Q o
OnDone-imp P Q (done a log) f h = f a log h
OnDone-imp P Q (broke e log) f h = tt
