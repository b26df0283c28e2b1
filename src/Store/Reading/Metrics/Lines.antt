-- ===== src/Store/Reading/Metrics/Lines.antt =====
-- The lines of a text such as that of GET /metrics of probestore (probestore/app/routers/metrics.py).
use tunnel_ops.Base.{
  ℕ, ◌==◌, Str, List, [], ◌∷◌, ◌++◌, append_assoc, All, if◌then◌else◌, ◌≡◌, refl, ap, ◌∙◌, inl, inr,
  arith, Bool-cases,
}
use tunnel_ops.Report.{newline}
use tunnel_ops.Report.Lines.{newlines}
use tunnel_ops.Store.Reading.Metrics.{join}

-- A character in front of the first line.
abbrev in_line : ℕ → List Str → List Str
in_line c [] = (c ∷ []) ∷ []
in_line c (l ∷ ls) = (c ∷ l) ∷ ls

-- The lines of a text, of which each one ends with a newline.
abbrev pub lines : Str → List Str
lines [] = []
lines (c ∷ s) = let rest = lines s in if c == newline then [] ∷ rest else in_line c rest

lines-line : (l s : Str) → newlines l ≡ 0 → lines (l ++ newline ∷ s) ≡ l ∷ lines s
lines-line [] s h = refl
lines-line (c ∷ l) s h = elim (Bool-cases (c == newline)) [
  | inl e ↦ absurd (omega (arith, rw e at h))
  | inr e ↦ rw (e, lines-line l s (omega (arith, rw e at h))) refl
]

abbrev pub unlines : List Str → Str
unlines [] = []
unlines (l ∷ ls) = l ++ newline ∷ unlines ls

pub lines-unlines : (ls : List Str) → All (λ l. newlines l ≡ 0) ls → lines (unlines ls) ≡ ls
lines-unlines [] h = refl
lines-unlines (l ∷ ls) h = lines-line l (unlines ls) h.0 ∙ ap (λ r. l ∷ r) (lines-unlines ls h.1)

join-unlines :
    (p : Str) (ps : List Str) → join (newline ∷ []) (p ∷ ps) ++ newline ∷ [] ≡ unlines (p ∷ ps)
join-unlines p [] = refl
join-unlines p (p' ∷ ps) =
    append_assoc p (newline ∷ join (newline ∷ []) (p' ∷ ps)) (newline ∷ [])
    ∙ ap (λ t. p ++ newline ∷ t) (join-unlines p' ps)

pub joined :
    (ls : List Str) (p : Str) (ps : List Str)
    → ls ≡ p ∷ ps
    → join (newline ∷ []) ls ++ newline ∷ [] ≡ unlines ls
joined ls p ps e = rw e (join-unlines p ps)
