-- ===== src/Bind/Escape/Literal.antt =====
-- What MySQL reads from the string literals of `escapeSQLString`.
use beeorm.Prelude.{
  ℕ, ◌==◌, ◌≡◌, refl, ap, ◌∙◌, if◌then◌else◌, ◌||◌, Bool, false, Option, none, some, [], ◌∷◌, ◌++◌,
  append_assoc, Text, arith,
}
use beeorm.Bind.Escape.{escape_of, escape_byte, escape_bytes, escape_sql_string}

-- The bytes that an escape sequence stands for in MySQL, in a mode without NO_BACKSLASH_ESCAPES; before
-- `%` and `_` the backslash is kept.
meaning : ℕ → Text
meaning e =
    if e == b'0'
    then 0 ∷ []
    else (if e == b'b'
        then 8 ∷ []
        else (if e == b'n'
            then b'\n' ∷ []
            else (if e == b'r'
                then b'\r' ∷ []
                else (if e == b't'
                    then 9 ∷ []
                    else (if e == b'Z'
                        then 26 ∷ []
                        else (if e == b'%' || e == b'_' then b'\\' ∷ e ∷ [] else e ∷ []))))))

abbrev with_bytes : Text → Option (Text × Text) → Option (Text × Text)
with_bytes bs none = none
with_bytes bs (some (t, rest)) = some (bs ++ t, rest)

-- What the reader of a literal has just read: a backslash, a quote, or neither.
data Reading : Type 0 where
  plain after_backslash after_quote : Reading

-- The text of a literal and what follows it. A quote ends the literal unless a second one follows: the
-- two are one quote of the text.
read_text : Text → Reading → Option (Text × Text)
read_text [] plain = none
read_text [] after_backslash = none
read_text [] after_quote = some ([], [])
read_text (c ∷ cs) after_backslash = with_bytes (meaning c) (read_text cs plain)
read_text (c ∷ cs) after_quote =
    let next = read_text cs plain in
    if c == b'\'' then with_bytes (b'\'' ∷ []) next else some ([], c ∷ cs)
read_text (c ∷ cs) plain =
    let next = read_text cs in
    if c == b'\''
    then next after_quote
    else (if c == b'\\' then next after_backslash else with_bytes (c ∷ []) (next plain))

-- A literal in single quotes.
pub read_literal : Text → Option (Text × Text)
unfolding read_text meaning
read_literal [] = none
read_literal (c ∷ cs) = if c == b'\'' then read_text cs plain else none

abbrev pub starts_with_quote : Text → Bool
starts_with_quote [] = false
starts_with_quote (c ∷ cs) = c == b'\''

read_text-escape_byte :
    (c : ℕ) (cs : Text)
    → read_text (escape_byte c ++ cs) plain ≡ with_bytes (c ∷ []) (read_text cs plain)
unfolding escape_byte escape_of read_text meaning
read_text-escape_byte c cs = ground arith

read_text-end :
    (rest : Text) → starts_with_quote rest ≡ false → read_text rest after_quote ≡ some ([], rest)
unfolding read_text
read_text-end [] ends = refl
read_text-end (c ∷ cs) ends = rw ends refl

read_text-escape_bytes :
    (val rest : Text)
    → starts_with_quote rest ≡ false
    → read_text (escape_bytes val ++ (b'\'' ∷ rest)) plain ≡ some (val, rest)
unfolding escape_bytes read_text
read_text-escape_bytes [] rest ends = read_text-end rest ends
read_text-escape_bytes (c ∷ cs) rest ends =
    ap (λ t. read_text t plain) (append_assoc (escape_byte c) (escape_bytes cs) (b'\'' ∷ rest))
    ∙ read_text-escape_byte c (escape_bytes cs ++ (b'\'' ∷ rest))
    ∙ ap (with_bytes (c ∷ [])) (read_text-escape_bytes cs rest ends)

-- MySQL, in a mode without NO_BACKSLASH_ESCAPES, reads the literal of every string as that string, and
-- the literal ends where the escaped string ends, whatever follows it but a quote: no string can reach
-- the statement that follows it.
pub read_literal-escape_sql_string :
    (val rest : Text)
    → starts_with_quote rest ≡ false
    → read_literal (escape_sql_string val ++ rest) ≡ some (val, rest)
unfolding escape_sql_string read_literal
read_literal-escape_sql_string val rest ends =
    ap (λ t. read_text t plain) (append_assoc (escape_bytes val) (b'\'' ∷ []) rest)
    ∙ read_text-escape_bytes val rest ends
