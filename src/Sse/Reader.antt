-- ===== src/Sse/Reader.antt =====
-- What a client reads from the text of events, by the interpretation of the event stream format.
use beauty_cl.Prelude.{
  ℕ, Bool, false, List, [], ◌∷◌, ◌++◌, Bytes, codes, is_empty, bytes_eq, ◌==◌, if◌then◌else◌,
}
use beauty_cl.Utils.Split.Laws.{lacks, join}

-- The lines of a stream, which end at a line feed, at a carriage return, or at both; `after_cr` says
-- whether the byte before was a carriage return.
abbrev grow_first : ℕ → List Bytes → List Bytes
grow_first c [] = (c ∷ []) ∷ []
grow_first c (l ∷ ls) = (c ∷ l) ∷ ls

unfoldable pub lines_from : Bool → Bytes → List Bytes
lines_from after_cr [] = []
lines_from after_cr (c ∷ s) =
    let rest = lines_from (c == b'\r') s in
    if c == b'\n'
    then (if after_cr then rest else [] ∷ rest)
    else (if c == b'\r' then [] ∷ rest else grow_first c rest)

abbrev pub lines_of : Bytes → List Bytes
lines_of s = lines_from false s

-- The event under construction, with the last id, and a finished one.
pub record Pending : Type 0 where
  pub id : Bytes
  pub event : Bytes
  pub lines : List Bytes

pub record Message : Type 0 where
  pub id : Bytes
  pub event : Bytes
  pub text : Bytes

-- The name of a field before the first colon, and its value without a first space.
abbrev skip_space : Bytes → Bytes
skip_space [] = []
skip_space (c ∷ s) = if c == b' ' then s else c ∷ s

abbrev onto_name : ℕ → Bytes × Bytes → Bytes × Bytes
onto_name c (name, value) = (c ∷ name, value)

unfoldable pub field : Bytes → Bytes × Bytes
field [] = ([], [])
field (c ∷ s) = if c == b':' then ([], skip_space s) else onto_name c (field s)

abbrev set_field : Bytes → Bytes → Pending → Pending
set_field name value p =
    if bytes_eq name (codes "data")
    then record p { lines = p.lines ++ value ∷ [] }
    else (if bytes_eq name (codes "event")
        then record p { event = value }
        else (if bytes_eq name (codes "id")
            then (if lacks 0 value then record p { id = value } else p)
            else p))

-- Each line is a field (an id with a zero byte is ignored); an empty one ends the event, which is dropped if it has no text.
unfoldable pub interpret : List Bytes → Pending → List Message
interpret [] p = []
interpret (l ∷ ls) p =
    let ended = interpret ls (record p { event = []; lines = [] }) in
    let more = interpret ls (set_field (field l).0 (field l).1 p) in
    if is_empty l
    then (if is_empty p.lines
        then ended
        else record { id = p.id; event = p.event; text = join p.lines b'\n' } ∷ ended)
    else more
