-- ===== src/Report/Escape.antt =====
-- `escapeLabel` of cmd/nodecheck/main.go: its three passes are one, and what it writes is read back.
use tunnel_ops.Base.{
  ℕ, ◌==◌, Str, [], ◌∷◌, ◌++◌, append_assoc, Option, none, some, if◌then◌else◌, ◌≡◌, refl, ◌≢◌, inl,
  inr, arith, Bool-cases,
}
use tunnel_ops.Report.{replace_all, escape_label, backslash, double_quote, newline}

-- What becomes of one byte.
abbrev pub escaped : ℕ → Str
escaped b =
    if b == backslash
    then backslash ∷ backslash ∷ []
    else if b == double_quote
    then backslash ∷ double_quote ∷ []
    else if b == newline
    then backslash ∷ b'n' ∷ []
    else b ∷ []

abbrev pub escape : Str → Str
escape [] = []
escape (b ∷ bs) = escaped b ++ escape bs

replace_all-append :
    (xs ys : Str) (old : ℕ) (new : Str)
    → replace_all (xs ++ ys) old new ≡ replace_all xs old new ++ replace_all ys old new
unfolding replace_all
replace_all-append [] ys old new = refl
replace_all-append (x ∷ xs) ys old new = elim (Bool-cases (x == old)) [
  | inl e ↦ rw (e, replace_all-append xs ys old new, append_assoc)
  | inr e ↦ rw (e, replace_all-append xs ys old new)
]

-- The three passes over one byte.
one_byte : (b : ℕ) → escape_label (b ∷ []) ≡ escaped b
unfolding escape_label
one_byte b = ground arith

escape_label-append : (xs ys : Str) → escape_label (xs ++ ys) ≡ escape_label xs ++ escape_label ys
escape_label-append xs ys = unfold escape_label in simp replace_all-append

-- The three replacements, in their order, amount to escaping each byte once.
pub escape_label-escape : (s : Str) → escape_label s ≡ escape s
escape_label-escape [] = unfold escape_label in refl
escape_label-escape (b ∷ bs) =
    rw (escape_label-append (b ∷ []) bs, one_byte b, escape_label-escape bs)

-- Reading a label's value as a Prometheus server does, up to the closing quote: the value, and what
-- follows it.
in_front : ℕ → Option (Str × Str) → Option (Str × Str)
in_front b none = none
in_front b (some (v, rest)) = some (b ∷ v, rest)

unescape : ℕ → Option ℕ
unescape b =
    if b == b'n'
    then some newline
    else if b == double_quote
    then some double_quote
    else if b == backslash
    then some backslash
    else none

read_after : Option ℕ → Option (Str × Str) → Option (Str × Str)
read_after none rest = none
read_after (some b) rest = in_front b rest

pub read_value : Str → Option (Str × Str)
read_value [] = none
read_value (b ∷ []) = if b == double_quote then some ([], []) else none
read_value (b ∷ c ∷ bs) =
    let plain = in_front b (read_value (c ∷ bs)) in
    let quoted = read_after (unescape c) (read_value bs) in
    if b == double_quote
    then some ([], c ∷ bs)
    else if b == newline
    then none
    else if b == backslash
    then quoted
    else plain

read_plain :
    (b c : ℕ) (bs : Str)
    → b ≢ double_quote
    → b ≢ newline
    → b ≢ backslash
    → read_value (b ∷ c ∷ bs) ≡ in_front b (read_value (c ∷ bs))
unfolding read_value
read_plain b c bs p q r = ground arith

read_escaped : (b : ℕ) (s : Str) → s ≢ [] → read_value (escaped b ++ s) ≡ in_front b (read_value s)
unfolding read_value unescape read_after
read_escaped b [] h = absurd (h refl)
read_escaped b (c ∷ cs) h = ground (arith, read_plain b c cs)

not_empty : (s rest : Str) → s ++ double_quote ∷ rest ≢ []
not_empty [] rest = λ e. cc
not_empty (b ∷ bs) rest = λ e. cc

-- Whatever a name holds, quotes, backslashes and newlines too, its escaped form between quotes is
-- read as that name, and reading stops at the closing quote.
pub read_value-escape_label :
    (s rest : Str) → read_value (escape_label s ++ double_quote ∷ rest) ≡ some (s, rest)
unfolding in_front
read_value-escape_label s rest = rw (escape_label-escape s) (read_escape s)
  where
    read_nil : (r : Str) → read_value (double_quote ∷ r) ≡ some ([], r)
    read_nil [] = unfold read_value in refl
    read_nil (c ∷ cs) = unfold read_value in refl

    read_escape : (t : Str) → read_value (escape t ++ double_quote ∷ rest) ≡ some (t, rest)
    read_escape [] = read_nil rest
    read_escape (b ∷ bs) = rw (
      append_assoc (escaped b) (escape bs) (double_quote ∷ rest),
      read_escaped b (escape bs ++ double_quote ∷ rest) (not_empty (escape bs) rest),
      read_escape bs,
    )
