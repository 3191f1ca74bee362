-- ===== src/Prometheus/Label.antt =====
-- Escaping of label values: `label` of src/prometheus.rs, and a reader of the text format that takes
-- an escaped value back.
use metrics.Common.{
  ℕ, ◌≡◌, ◌≢◌, ◌∙◌, ap, refl, sym, Bool, true, false, [], ◌∷◌, ◌++◌, append_assoc, append-nil,
  Option, none, some, arith, Bytes, codes, ◌==◌, if◌then◌else◌, All, All-append,
}

-- One round of the loop: what is appended for a byte.
unfoldable pub escape_byte : ℕ → Bytes
escape_byte byte =
    if byte == b'\\'
    then codes "\\\\"
    else if byte == b'"'
    then codes "\\\""
    else if byte == b'\n'
    then codes "\\n"
    else byte ∷ []

-- `fn label(buffer, value)`: the buffer after the loop.
unfoldable pub label : Bytes → Bytes → Bytes
unfolding escape_byte
label buffer [] = buffer
label buffer (byte ∷ value) = label (buffer ++ escape_byte byte) value

-- What is appended in all.
unfoldable pub escape : Bytes → Bytes
unfolding escape_byte
escape [] = []
escape (byte ∷ value) = escape_byte byte ++ escape value

-- The loop appends the escaped value to the buffer and keeps what the buffer held.
pub label-escape : (buffer value : Bytes) → label buffer value ≡ buffer ++ escape value
unfolding label escape
label-escape buffer [] = sym (append-nil buffer)
label-escape buffer (byte ∷ value) =
    label-escape (buffer ++ escape_byte byte) value
    ∙ append_assoc buffer (escape_byte byte) (escape value)

-- The byte that stands behind a backslash in a label value of the text format.
unfoldable pub unescape_byte : ℕ → Option ℕ
unescape_byte c =
    if c == b'\\'
    then some b'\\'
    else if c == b'"'
    then some b'"'
    else if c == b'n'
    then some b'\n'
    else none

-- `push c` puts a byte in front of the value that was read.
abbrev push : ℕ → Option (Bytes × Bytes) → Option (Bytes × Bytes)
push c none = none
push c (some (value, rest)) = some (c ∷ value, rest)

abbrev push? : Option ℕ → Option (Bytes × Bytes) → Option (Bytes × Bytes)
push? none r = none
push? (some c) r = push c r

-- A reader of the text format, behind an opening quote: the label value up to the first quote that
-- no backslash precedes, and the input behind that quote. The flag says that a backslash has just
-- been read. A raw newline ends the line too early.
unfoldable pub read_value : Bool → Bytes → Option (Bytes × Bytes)
unfolding unescape_byte
read_value pending [] = none
read_value true (c ∷ input) = push? (unescape_byte c) (read_value false input)
read_value false (c ∷ input) =
    let escaped = read_value true input in
    let plain = push c (read_value false input) in
    if c == b'"'
    then some ([], input)
    else if c == b'\n'
    then none
    else if c == b'\\'
    then escaped
    else plain

read_value-escape_byte :
    (c : ℕ) (rest : Bytes)
    → read_value false (escape_byte c ++ rest) ≡ push c (read_value false rest)
unfolding read_value escape_byte
read_value-escape_byte c rest = ground arith

-- A reader of the text format takes every value back from its escaped form, up to the closing quote,
-- and leaves what follows untouched.
pub read_value-escape :
    (value rest : Bytes) → read_value false (escape value ++ b'"' ∷ rest) ≡ some (value, rest)
unfolding escape
read_value-escape [] rest = unfold read_value in refl
read_value-escape (c ∷ value) rest =
    rw (append_assoc (escape_byte c) (escape value) (b'"' ∷ rest))
      (rw (read_value-escape_byte c (escape value ++ b'"' ∷ rest), read_value-escape value rest))

-- Two escaped values, each with its closing quote, agree only if the values and what follows agree.
pub escape-injective :
    (v w rest rest' : Bytes)
    → escape v ++ b'"' ∷ rest ≡ escape w ++ b'"' ∷ rest'
    → (v ≡ w) × (rest ≡ rest')
escape-injective v w rest rest' h =
    let both : some (v, rest) ≡ some (w, rest') =
      sym (read_value-escape v rest) ∙ ap (read_value false) h ∙ read_value-escape w rest' in
    ground (arith, both)

escape_byte-newline : (c : ℕ) → All (λ b. b ≢ b'\n') (escape_byte c)
unfolding escape_byte
escape_byte-newline c = ground arith

-- An escaped value holds no newline, so it cannot end its line.
pub escape-newline : (value : Bytes) → All (λ b. b ≢ b'\n') (escape value)
unfolding escape
escape-newline [] = tt
escape-newline (c ∷ value) =
    All-append _ (escape_byte c) (escape value) (escape_byte-newline c) (escape-newline value)
