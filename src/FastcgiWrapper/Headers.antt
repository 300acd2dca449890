-- ===== src/FastcgiWrapper/Headers.antt =====
-- The headers of a response, as the server reads them.
use blade_psgi.Base.{
  ℕ, ◌≡◌, refl, ap, ◌∙◌, true, false, ◌&&◌, List, [], ◌∷◌, ◌++◌, All, All-append, map, append_assoc,
  ◌==◌,
}
use blade_psgi.Base.Bytes.{Bytes, codes}
use blade_psgi.FastcgiWrapper.{header_lines, header_text}

-- A byte in front of the first line.
abbrev pub prepend : ℕ → List Bytes → List Bytes
prepend b [] = (b ∷ []) ∷ []
prepend b (line ∷ lines) = (b ∷ line) ∷ lines

-- The pieces between a carriage return with a newline and the next.
unfoldable pub crlf_lines : Bytes → List Bytes
crlf_lines [] = [] ∷ []
crlf_lines (b ∷ []) = (b ∷ []) ∷ []
crlf_lines (b ∷ c ∷ bs) = elim (b == 13 && c == 10) [
  | true ↦ [] ∷ crlf_lines bs
  | false ↦ prepend b (crlf_lines (c ∷ bs))
]

-- No byte is a carriage return.
abbrev pub IsLine : Bytes → Type 0
IsLine line = All (λ b. (b == 13) ≡ false) line

crlf_lines-line :
    (line rest : Bytes)
    → IsLine line
    → crlf_lines (line ++ (13 ∷ 10 ∷ rest)) ≡ line ∷ crlf_lines rest
unfolding crlf_lines
crlf_lines-line [] rest h = refl
crlf_lines-line (b ∷ []) rest (h, hs) = rw (crlf_lines, h) refl
crlf_lines-line (b ∷ c ∷ bs) rest (h, hs) =
    rw (crlf_lines, h) (ap (prepend b) (crlf_lines-line (c ∷ bs) rest hs))

-- The headers as pairs, and as the array of the response.
abbrev pub in_turn : List (Bytes × Bytes) → List Bytes
in_turn [] = []
in_turn ((k, v) ∷ rest) = k ∷ v ∷ in_turn rest

abbrev pub header_line : Bytes × Bytes → Bytes
header_line (k, v) = k ++ (codes ": " ++ v)

abbrev pub AreLines : List (Bytes × Bytes) → Type 0
AreLines = All (λ (kv : Bytes × Bytes). IsLine kv.0 × IsLine kv.1)

header_line-IsLine : (k v : Bytes) → IsLine k → IsLine v → IsLine (header_line (k, v))
header_line-IsLine k v h g =
    All-append (λ b. (b == 13) ≡ false) k (codes ": " ++ v) h (refl, (refl, g))

header_lines-lines :
    (headers : List (Bytes × Bytes)) (rest : Bytes)
    → AreLines headers
    → crlf_lines (header_lines (in_turn headers) ++ rest)
      ≡ map header_line headers ++ crlf_lines rest
unfolding header_lines
header_lines-lines [] rest h = refl
header_lines-lines ((k, v) ∷ headers) rest ((hk, hv), hs) =
    ap crlf_lines (assemble k v (header_lines (in_turn headers)) rest)
    ∙ crlf_lines-line (header_line (k, v)) (header_lines (in_turn headers) ++ rest)
        (header_line-IsLine k v hk hv)
    ∙ ap (λ ls. header_line (k, v) ∷ ls) (header_lines-lines headers rest hs)
  where
    assemble :
        (k v next rest : Bytes)
        → (k ++ (codes ": " ++ (v ++ (13 ∷ 10 ∷ next)))) ++ rest
          ≡ header_line (k, v) ++ (13 ∷ 10 ∷ (next ++ rest))
    assemble k v next rest = simp append_assoc refl

-- A server that cuts the headers at the line ends gets the status line, one line for each name with its
-- value, in their order, and an empty line behind them, in front of the body. There is no carriage
-- return in the status, the message, the names and the values.
pub header_text-lines :
    (status message : Bytes) (headers : List (Bytes × Bytes)) (body : Bytes)
    → IsLine status
    → IsLine message
    → AreLines headers
    → crlf_lines (header_text status message (in_turn headers) ++ body)
      ≡ (codes "Status: " ++ (status ++ (b' ' ∷ message)))
        ∷ (map header_line headers ++ ([] ∷ crlf_lines body))
unfolding header_text
header_text-lines status message headers body hs hm hh =
    ap crlf_lines assemble
    ∙ crlf_lines-line status_line (header_lines (in_turn headers) ++ (13 ∷ 10 ∷ body)) fine
    ∙ ap (λ ls. status_line ∷ ls)
        (header_lines-lines headers (13 ∷ 10 ∷ body) hh
          ∙ ap (λ ls. map header_line headers ++ ls) (crlf_lines-line [] body tt))
  where
    status_line : Bytes
    status_line = codes "Status: " ++ (status ++ (b' ' ∷ message))

    fine : IsLine status_line
    fine =
        All-append (λ b. (b == 13) ≡ false) (codes "Status: ") (status ++ (b' ' ∷ message))
          (refl, (refl, (refl, (refl, (refl, (refl, (refl, (refl, tt))))))))
          (All-append (λ b. (b == 13) ≡ false) status (b' ' ∷ message) hs (refl, hm))

    assemble :
        header_text status message (in_turn headers) ++ body
        ≡ status_line ++ (13 ∷ 10 ∷ (header_lines (in_turn headers) ++ (13 ∷ 10 ∷ body)))
    assemble = simp append_assoc refl
