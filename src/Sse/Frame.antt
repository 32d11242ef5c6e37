-- ===== src/Sse/Frame.antt =====
-- src/sse_stream.cpp: the text of an event and its reader.
use beauty_cl.Prelude.{◌≢◌, [], ◌∷◌, Bytes, is_empty, All, if◌then◌else◌}
use beauty_cl.Utils.Split.Laws.{Lacks}
use beauty_cl.Sse.Reader.{Pending}

-- Neither a line feed nor a carriage return.
abbrev pub OneLine : Bytes → Type 0
OneLine = All (λ c. (c ≢ b'\n') × (c ≢ b'\r'))

pub All-both : (s : Bytes) → Lacks b'\n' s → Lacks b'\r' s → OneLine s
All-both [] h k = tt
All-both (c ∷ s) (n, h) (r, k) = ((n, r), All-both s h k)

-- Nothing of an event is pending.
abbrev pub fresh : Bytes → Pending
fresh last_id = record { id = last_id; event = []; lines = [] }

abbrev pub read_id : Bytes → Bytes → Bytes
read_id last_id id = if is_empty id then last_id else id
