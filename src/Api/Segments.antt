-- ===== src/Api/Segments.antt =====
-- The path of a request as the server takes it apart: up to its query, at its slashes.
use Prim.Native.Char.{code}
use Prim.Native.String as Chars
use davy_jones.Prelude.{
  ℕ, String, ◌≡◌, refl, sym, ap, ◌∙◌, true, false, List, [], ◌∷◌, All, nat_eq, inl, inr, Bool-cases,
  if◌then◌else◌,
}
use davy_jones.Prelude.Text.{concat, concat-nil, concat_assoc, has_char}
use davy_jones.Prelude.Split.{split, split_piece, split_first}

abbrev slash : ℕ
slash = 47

abbrev question_mark : ℕ
question_mark = 63

-- the path without the query
unfoldable pub before_query : String → String
before_query Chars.[] = ""
before_query (Chars.◌∷◌ c s) =
    let rest = before_query s in if nat_eq (code c) question_mark then "" else Chars.◌∷◌ c rest

abbrev without_first : List String → List String
without_first [] = []
without_first (s ∷ segments) = segments

-- the segments behind the first slash
unfoldable pub segments : String → List String
unfolding before_query split
segments path = without_first (split slash (before_query path))

-- the segments, each behind a slash
unfoldable pub slashed : List String → String
unfolding concat
slashed [] = ""
slashed (s ∷ r) = concat "/" (concat s (slashed r))

-- a text that is one segment of a path
abbrev pub IsSegment : String → Type 0
IsSegment s = (has_char s slash ≡ false) × (has_char s question_mark ≡ false)

before_query-concat :
    (s t : String)
    → has_char s question_mark ≡ false
    → before_query (concat s t) ≡ concat s (before_query t)
unfolding before_query concat has_char
before_query-concat Chars.[] t h = refl
before_query-concat (Chars.◌∷◌ c s) t h = elim (Bool-cases (nat_eq (code c) question_mark)) [
  | inl e ↦ let clash : true ≡ false = rw e at h in cc
  | inr e ↦
      let rest : has_char s question_mark ≡ false = rw e at h in
      rw (e, before_query-concat s t rest) refl
]

before_query-slash : (s : String) → before_query (Chars.◌∷◌ "/" s) ≡ Chars.◌∷◌ "/" (before_query s)
unfolding before_query
before_query-slash s = refl

before_query-slashed :
    (segs : List String) (tail : String)
    → before_query tail ≡ ""
    → All IsSegment segs
    → before_query (concat (slashed segs) tail) ≡ slashed segs
unfolding slashed concat
before_query-slashed [] tail e h = e
before_query-slashed (s ∷ segs) tail e h =
    before_query-slash (concat (concat s (slashed segs)) tail)
    ∙ ap (λ (t : String). Chars.◌∷◌ "/" t)
        (ap before_query (concat_assoc s (slashed segs) tail)
          ∙ before_query-concat s (concat (slashed segs) tail) h.0.1
          ∙ ap (concat s) (before_query-slashed segs tail e h.1))

split-slashed :
    (s : String) (segs : List String)
    → All IsSegment (s ∷ segs)
    → split slash (concat s (slashed segs)) ≡ s ∷ segs
unfolding slashed concat
split-slashed s [] h = ap (split slash) (concat-nil s) ∙ split_piece slash s h.0.0
split-slashed s (t ∷ segs) h =
    split_first "/" s (concat t (slashed segs)) h.0.0
    ∙ ap (λ (r : List String). s ∷ r) (split-slashed t segs h.1)

slashed_pieces : (segs : List String) → All IsSegment segs → split slash (slashed segs) ≡ "" ∷ segs
unfolding split slashed concat
slashed_pieces [] h = refl
slashed_pieces (s ∷ segs) h = ap (λ (r : List String). "" ∷ r) (split-slashed s segs h)

-- The segments come back, whatever query stands behind them.
pub segments-concat :
    (segs : List String) (query : String)
    → before_query query ≡ ""
    → All IsSegment segs
    → segments (concat (slashed segs) query) ≡ segs
unfolding segments
segments-concat segs query e h =
    ap without_first
      (ap (split slash) (before_query-slashed segs query e h) ∙ slashed_pieces segs h)

pub segments-slashed : (segs : List String) → All IsSegment segs → segments (slashed segs) ≡ segs
unfolding before_query
segments-slashed segs h =
    ap segments (sym (concat-nil (slashed segs))) ∙ segments-concat segs "" refl h
