-- ===== src/Bind/Escape.antt =====
-- `escapeSQLString` of db.go.
pub mod Literal
use beeorm.Prelude.{ℕ, ◌==◌, if◌then◌else◌, Option, none, some, [], ◌∷◌, ◌++◌, Text}

-- The letter that stands for a byte after a backslash.
unfoldable pub escape_of : ℕ → Option ℕ
escape_of c =
    if c == 0
    then some b'0'
    else (if c == b'\n'
        then some b'n'
        else (if c == b'\r'
            then some b'r'
            else (if c == b'\\'
                then some b'\\'
                else (if c == b'\''
                    then some b'\''
                    else (if c == b'"'
                        then some b'"'
                        else (if c == 26 then some b'Z' else none))))))

unfoldable pub escape_byte : ℕ → Text
unfolding escape_of
escape_byte c = elim (escape_of c) [ none ↦ c ∷ [] | some e ↦ b'\\' ∷ e ∷ [] ]

unfoldable pub escape_bytes : Text → Text
unfolding escape_byte
escape_bytes [] = []
escape_bytes (c ∷ cs) = escape_byte c ++ escape_bytes cs

unfoldable pub escape_sql_string : Text → Text
unfolding escape_bytes
escape_sql_string val = b'\'' ∷ (escape_bytes val ++ (b'\'' ∷ []))
