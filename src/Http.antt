-- ===== src/Http.antt =====
-- net/http as the program uses it: a ResponseWriter, and the patterns of a ServeMux.
use kube_graffiti.Common.{
  panics, ℕ, String, Option, none, some, List, [], ◌∷◌, ◌==◌, Result, ok, abort, if◌then◌else◌, any,
  ◌<>◌,
}
use kube_graffiti.Dict.{Dict, insert}

-- `header` is the map that a handler may still write to; `sent` is the status with the header as it was
-- when the status went out, which later writes to the map do not reach.
pub record Writer : Type 0 where
  pub header : Dict String
  pub sent : Option (ℕ × Dict String)
  pub body : String

abbrev pub new_writer : Writer
new_writer = record { header = []; sent = none; body = "" }

-- w.Header().Set(k, v)
unfoldable pub set_header : String → String → Writer → Writer
set_header k v w = record w { header = insert k v w.header }

-- A second call has no effect.
abbrev status_line : ℕ → Dict String → Option (ℕ × Dict String) → Option (ℕ × Dict String)
status_line status header none = some (status, header)
status_line status header (some s) = some s

unfoldable pub write_header : ℕ → Writer → Writer
write_header status w = record w { sent = status_line status w.header w.sent }

-- io.WriteString(w, s), which sends status 200 first if none was sent.
unfoldable pub write_string : String → Writer → Writer
write_string s w = record w { sent = status_line 200 w.header w.sent; body = w.body <> s }

-- mux.Handle, which panics on the empty pattern and on one that it has. The patterns are those that the
-- mux has a handler for.
unfoldable pub handle : List String → String → Result (List String)
handle patterns path =
    if path == ""
    then abort (panics "http: invalid pattern")
    else if any (λ p. p == path) patterns
    then abort (panics ("http: multiple registrations for " <> path))
    else ok (path ∷ patterns)
