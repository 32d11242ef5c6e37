-- ===== src/Route/Matching.antt =====
-- src/route.cpp: the requests that a route matches.
use beauty_cl.Prelude.{
  ℕ, suc, ◌≡◌, ◌≢◌, ◌↔◌, ◌⊎◌, inl, inr, refl, ap, Bool, true, false, none, some, List, [], ◌∷◌,
  arith, Bytes, is_empty, bytes_eq, bytes_eq_iff, length, ◌==◌, if◌then◌else◌, ==_iff, Bool-cases,
  Option-cases,
}
use beauty_cl.Utils.Split.{split}
use beauty_cl.Attributes.{Attributes, attributes}
use beauty_cl.Swagger.{is_parameter}
use beauty_cl.Route.{Route, is_websocket, match_segments, match_target, match, head_of, second_of}

-- A literal segment matches itself, and a parameter matches every segment of the request.
abbrev pub Matches : List Bytes → List Bytes → Type 0
Matches [] [] = Unit {0}
Matches (s ∷ segments) (p ∷ requests) =
    ((is_parameter s ≡ true) ⊎ (s ≡ p)) × Matches segments requests
Matches _ _ = ⊥

-- The segments of the request's path: what stands before the first `?`.
abbrev pub request_paths : Bytes → List Bytes
request_paths target = split (head_of (split target b'?')) b'/'

pub Matches-length : (ss ps : List Bytes) → Matches ss ps → length ss ≡ length ps
Matches-length [] [] m = refl
Matches-length [] (p ∷ ps) m = elim m [ ]
Matches-length (s ∷ ss) [] m = elim m [ ]
Matches-length (s ∷ ss) (p ∷ ps) m = ap suc (Matches-length ss ps m.1)

match_segments-Matches :
    (ss ps : List Bytes) (attrs out : Bytes)
    → length ss ≡ length ps
    → match_segments ss ps attrs ≡ some out
    → Matches ss ps
unfolding match_segments
match_segments-Matches [] [] attrs out l e = tt
match_segments-Matches [] (p ∷ ps) attrs out l e = absurd (omega arith)
match_segments-Matches (s ∷ ss) [] attrs out l e = absurd (omega arith)
match_segments-Matches (s ∷ ss) (p ∷ ps) attrs out l e = elim (Bool-cases (is_parameter s)) [
  | inl h ↦ (inl h, match_segments-Matches ss ps _ out (omega arith) (rw h at e))
  | inr h ↦ elim (Bool-cases (bytes_eq s p)) [
    | inl k ↦ (
      inr ((bytes_eq_iff s p).0 k),
      match_segments-Matches ss ps attrs out (omega arith) (rw (h, k) at e),
    )
    | inr k ↦ cc (rw (h, k) at e)
  ]
]

Matches-match_segments :
    (ss ps : List Bytes) (attrs : Bytes) → Matches ss ps → match_segments ss ps attrs ≢ none
unfolding match_segments
Matches-match_segments [] [] attrs m = λ e. cc
Matches-match_segments [] (p ∷ ps) attrs m = elim m [ ]
Matches-match_segments (s ∷ ss) [] attrs m = elim m [ ]
Matches-match_segments (s ∷ ss) (p ∷ ps) attrs (m, ms) = elim (Bool-cases (is_parameter s)) [
  | inl h ↦ rw h (Matches-match_segments ss ps _ ms)
  | inr h ↦ ground (arith, bytes_eq_iff s p, Matches-match_segments ss ps attrs ms)
]

-- The two ways to fail, and the one to match.
pub match_target-hit :
    (ss : List Bytes) (target : Bytes) (old : Attributes) (attrs : Bytes)
    → length ss ≡ length (request_paths target)
    → match_segments ss (request_paths target) (second_of (split target b'?')) ≡ some attrs
    → match_target ss target old ≡ (true, if is_empty attrs then old else attributes attrs b'&')
unfolding match_target
match_target-hit ss target old attrs l e = rw ((==_iff _ _).1 l) (rw (e, match_target))

match_target-miss :
    (ss : List Bytes) (target : Bytes) (old : Attributes)
    → length ss ≡ length (request_paths target)
    → match_segments ss (request_paths target) (second_of (split target b'?')) ≡ none
    → match_target ss target old ≡ (false, old)
unfolding match_target
match_target-miss ss target old l e = rw ((==_iff _ _).1 l) (rw (e, match_target))

match_target-length :
    (ss : List Bytes) (target : Bytes) (old : Attributes)
    → (length ss == length (request_paths target)) ≡ false
    → match_target ss target old ≡ (false, old)
unfolding match_target
match_target-length ss target old l = rw l

-- A target matches exactly when its path does, segment by segment.
match_target_iff :
    (ss : List Bytes) (target : Bytes) (old : Attributes)
    → ((match_target ss target old).0 ≡ true) ↔ Matches ss (request_paths target)
match_target_iff ss target old =
    let ps = request_paths target in
    let query = second_of (split target b'?') in
    elim (Bool-cases (length ss == length ps)) [
      | inr l ↦ (
        λ e. cc (match_target-length ss target old l),
        λ m. absurd (false_of (Matches-length ss ps m) l),
      )
      | inl l ↦ elim (Option-cases (match_segments ss ps query)) [
        | inl n ↦ (
          λ e. cc (match_target-miss ss target old ((==_iff _ _).0 l) n),
          λ m. absurd (Matches-match_segments ss ps query m n),
        )
        | inr (attrs, h) ↦ (
          λ e. match_segments-Matches ss ps query attrs ((==_iff _ _).0 l) h,
          λ m.
              ap (λ (r : Bool × Attributes). r.0)
                (match_target-hit ss target old attrs ((==_iff _ _).0 l) h),
        )
      ]
    ]
  where
    false_of : {m n : ℕ} → m ≡ n → (m == n) ≡ false → ⊥
    false_of {m} {n} e l = cc ((==_iff m n).1 e)

both : (b : Bool) {P Q : Type 0} → P ↔ Q → P ↔ ((b ≡ b) × Q)
both b h = (λ p. (refl, h.0 p), λ q. h.1 q.1)

-- A route matches exactly when it is a WebSocket route for an upgrade request, and none for any
-- other, and its segments match those of the path.
pub match_iff :
    {J C M : Type 0} (r : Route J C M) (target : Bytes) (old : Attributes) (websocket : Bool)
    → ((match r target old websocket).0 ≡ true)
      ↔ ((websocket ≡ is_websocket r.handler) × Matches r.segments (request_paths target))
unfolding match
match_iff r target old true = elim (Bool-cases (is_websocket r.handler)) [
  | inl e ↦ rw e (both true (match_target_iff r.segments target old))
  | inr e ↦ rw e (λ f. cc, λ f. cc (f.0))
]
match_iff r target old false = elim (Bool-cases (is_websocket r.handler)) [
  | inl e ↦ rw e (λ f. cc, λ f. cc (f.0))
  | inr e ↦ rw e (both false (match_target_iff r.segments target old))
]

-- A route that does not match leaves the attributes of the request alone.
pub match_fails :
    {J C M : Type 0} (r : Route J C M) (target : Bytes) (old : Attributes) (websocket : Bool)
    → (match r target old websocket).0 ≡ false
    → (match r target old websocket).1 ≡ old
unfolding match match_target
match_fails r target old websocket e = ground arith
