-- ===== src/Utils/Escape/Laws.antt =====
-- src/utils.cpp: `unescape` and `escape`.
use beauty_cl.Prelude.{
  ℕ, ◌/◌, ◌%◌, ◌<◌, ◌≡◌, ◌≢◌, ◌⊎◌, inl, inr, refl, ap, ◌∙◌, Bool, true, false, not, ◌&&◌, [], ◌∷◌,
  map, arith, Bytes, IsBytes, All, ◌==◌, if◌then◌else◌, Bool-cases, holds_up_to, holds_up_to_sound,
}
use beauty_cl.Utils.Split.Laws.{Lacks}
use beauty_cl.Utils.Escape.{
  is_unsafe, toupper, dec2hex, escape_byte, escape, is_hex, unescape_pair, runs, plus_to_space,
  unescape_matches, unescape,
}

-- What a byte must satisfy to come back, whichever way it is written.
returns : ℕ → Bool
returns c =
    let u = toupper c in
    let a = dec2hex (u / 16) in
    let b = dec2hex (u % 16) in
    if is_unsafe c
    then (is_hex a && is_hex b)
      && (unescape_pair a b == c)
      && (plus_to_space a == a)
      && (plus_to_space b == b)
      && not (is_unsafe a)
      && not (is_unsafe b)
    else not (c == b'%') && (plus_to_space c == c)

returns_table : holds_up_to returns 255 ≡ true
unfolding returns holds_up_to runs
returns_table = refl

unescape_matches_plain :
    (c : ℕ) (s : Bytes) → c ≢ b'%' → unescape_matches (c ∷ s) ≡ c ∷ unescape_matches s
unfolding unescape_matches
unescape_matches_plain c [] h = refl
unescape_matches_plain c (a ∷ []) h = ground arith
unescape_matches_plain c (a ∷ b ∷ s) h = ground arith

unescape_matches_pair :
    (a b : ℕ) (s : Bytes)
    → is_hex a ≡ true
    → is_hex b ≡ true
    → unescape_matches (b'%' ∷ a ∷ b ∷ s) ≡ unescape_pair a b ∷ unescape_matches s
unfolding unescape_matches
unescape_matches_pair a b s h k = rw (h, k, unescape_matches)

abbrev hi : ℕ → ℕ
hi c = dec2hex (toupper c / 16)

abbrev lo : ℕ → ℕ
lo c = dec2hex (toupper c % 16)

returns_all : (c : ℕ) → c < 256 → returns c ≡ true
returns_all c h = holds_up_to_sound returns 255 returns_table c (omega arith)

returns_unsafe :
    (c : ℕ)
    → c < 256
    → is_unsafe c ≡ true
    → (is_hex (hi c) ≡ true)
      × (is_hex (lo c) ≡ true)
      × (unescape_pair (hi c) (lo c) ≡ c)
      × (plus_to_space (hi c) ≡ hi c)
      × (plus_to_space (lo c) ≡ lo c)
      × (is_unsafe (hi c) ≡ false)
      × (is_unsafe (lo c) ≡ false)
unfolding returns
returns_unsafe c h u = ground (arith, returns_all c h)

returns_safe : (c : ℕ) → c < 256 → is_unsafe c ≡ false → (c ≢ b'%') × (plus_to_space c ≡ c)
unfolding returns
returns_safe c h u = ground (arith, returns_all c h)

escape_step :
    (c : ℕ) (s : Bytes)
    → escape (c ∷ s) ≡ (if is_unsafe c then b'%' ∷ hi c ∷ lo c ∷ escape s else c ∷ escape s)
unfolding escape escape_byte
escape_step c s = ground arith

unescape-escape_cons :
    (c : ℕ) (s : Bytes) → c < 256 → unescape (escape (c ∷ s)) ≡ c ∷ unescape (escape s)
unfolding unescape
unescape-escape_cons c s h = elim (Bool-cases (is_unsafe c)) [
  | inl u ↦
      let (x, y, e, p, q, _, _) = returns_unsafe c h u in
      rw (escape_step c s, u) (rw (percent, p, q, unescape_matches_pair _ _ _ x y, e) refl)
  | inr u ↦
      let (n, e) = returns_safe c h u in
      rw (escape_step c s, u) (rw (e, unescape_matches_plain c _ n) refl)
]
  where
    percent : plus_to_space b'%' ≡ b'%'
    percent = unfold plus_to_space in refl

-- Any byte string survives `escape` and then `unescape`.
pub unescape-escape : (s : Bytes) → IsBytes s → unescape (escape s) ≡ s
unfolding unescape_matches
unescape-escape [] h = unfold escape unescape in refl
unescape-escape (c ∷ s) h = unescape-escape_cons c s h.0 ∙ ap (λ r. c ∷ r) (unescape-escape s h.1)

unescape_matches-Lacks : (s : Bytes) → Lacks b'%' s → unescape_matches s ≡ s
unescape_matches-Lacks [] h = unfold unescape_matches in refl
unescape_matches-Lacks (c ∷ s) h =
    rw (unescape_matches_plain c s h.0) (ap (λ r. c ∷ r) (unescape_matches-Lacks s h.1))

plus_to_space-Lacks : (s : Bytes) → Lacks b'+' s → map plus_to_space s ≡ s
unfolding plus_to_space
plus_to_space-Lacks [] h = refl
plus_to_space-Lacks (c ∷ s) h = ground (arith, plus_to_space-Lacks s h.1)

-- A text with neither `%` nor `+` is its own meaning.
pub unescape_plain : (s : Bytes) → Lacks b'%' s → Lacks b'+' s → unescape s ≡ s
unfolding unescape
unescape_plain s h k = rw (plus_to_space-Lacks s k) (unescape_matches-Lacks s h)

-- Unreserved in a URL: a byte that `escape` leaves alone.
abbrev pub IsUnreserved : ℕ → Type 0
IsUnreserved c = is_unsafe c ≡ false

-- The escaped text holds nothing but unreserved bytes and percent signs.
pub escape-IsUnreserved :
    (s : Bytes) → IsBytes s → All (λ c. IsUnreserved c ⊎ (c ≡ b'%')) (escape s)
escape-IsUnreserved [] h = unfold escape in tt
escape-IsUnreserved (c ∷ s) h = elim (Bool-cases (is_unsafe c)) [
  | inl u ↦
      let (_, _, _, _, _, x, y) = returns_unsafe c h.0 u in
      rw (escape_step c s, u) (inr refl, (inl x, (inl y, escape-IsUnreserved s h.1)))
  | inr u ↦ rw (escape_step c s, u) (inl u, escape-IsUnreserved s h.1)
]
