-- ===== src/Request/Printed.antt =====
-- Requests as a client prints them: the request line and the headers, each with its CRLF, an empty
-- line, and the body.
pub mod Reading
pub mod Framed
use camrtsp.Common.{
  ℕ, ◌≤◌, ◌≡◌, ◌≢◌, Option, none, some, List, [], ◌∷◌, ◌++◌, All, same, if◌then◌else◌,
}
use camrtsp.Text.{chars, trim, to_lower, to_ascii_lowercase, to_ascii_uppercase, parse_usize}
use camrtsp.Text.Words.{IsGraphic}
use camrtsp.Text.Lines.{join_lines}
use camrtsp.Request.{Headers, Request}

abbrev pub rtsp_version : List ℕ
rtsp_version = chars "RTSP/1.0"

abbrev pub first_line : List ℕ → List ℕ → List ℕ
first_line method uri = method ++ 32 ∷ (uri ++ 32 ∷ rtsp_version)

abbrev pub header_row : List ℕ × List ℕ → List ℕ
header_row (key, value) = key ++ b':' ∷ 32 ∷ value

abbrev pub rows : Headers → List (List ℕ)
rows [] = []
rows (h ∷ hs) = header_row h ∷ rows hs

abbrev pub printed : List ℕ → List ℕ → Headers → List ℕ
printed method uri headers = join_lines (first_line method uri ∷ rows headers)

-- A method that is no frame, and whose line cannot be taken for the header `Content-Length`.
abbrev pub IsMethod : List ℕ → Type 0
IsMethod [] = ⊥
IsMethod (m ∷ ms) = All IsGraphic (m ∷ ms) × (m ≢ b'$') × (m ≢ b':') × (to_lower m ≢ b'c')

abbrev pub IsUri : List ℕ → Type 0
IsUri [] = ⊥
IsUri (u ∷ us) = All IsGraphic (u ∷ us)

abbrev pub IsKeyChar : ℕ → Type 0
IsKeyChar c = IsGraphic c × (c ≢ b':')

abbrev pub IsValueChar : ℕ → Type 0
IsValueChar c = (32 ≤ c) × (c ≤ 126)

abbrev pub IsHeader : List ℕ × List ℕ → Type 0
IsHeader (key, value) = All IsKeyChar key × All IsValueChar value

-- No two keys are the same, whatever the case of their letters.
abbrev pub AreDistinct : Headers → Type 0
AreDistinct [] = Unit
AreDistinct ((key, value) ∷ hs) =
    All (λ h. to_ascii_lowercase h.0 ≢ to_ascii_lowercase key) hs × AreDistinct hs

-- The headers as they are stored, the last first.
abbrev pub stored : Headers → Headers → Headers
stored [] before = before
stored ((key, value) ∷ hs) before = stored hs ((to_ascii_lowercase key, trim value) ∷ before)

-- The length that the headers declare for the body.
unfoldable pub declared : Headers → Option ℕ
unfolding same to_ascii_lowercase trim parse_usize
declared [] = some 0
declared ((key, value) ∷ hs) =
    if same (to_ascii_lowercase key) (chars "content-length")
    then parse_usize (trim value)
    else declared hs

-- The request that is read from what was printed.
abbrev pub read_back : List ℕ → List ℕ → Headers → Request
read_back method uri headers = record {
  method = to_ascii_uppercase method;
  uri = uri;
  headers = stored headers [];
}
