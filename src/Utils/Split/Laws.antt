-- ===== src/Utils/Split/Laws.antt =====
-- src/utils.cpp: the parts that `split` makes.
use beauty_cl.Prelude.{
  ℕ, zero, suc, ◌≤◌, ◌≡◌, ◌≢◌, ◌↔◌, inl, inr, refl, ap, subst, Bool, true, false, not, ◌&&◌, ◌||◌,
  none, some, List, [], ◌∷◌, ◌++◌, arith, Bytes, is_empty, length, All, ◌==◌, if◌then◌else◌,
  Bool-cases, Option-cases,
}
use beauty_cl.Utils.Split.{
  find, split_loop, last_is, split, onto_first, fields, find-none, find-some,
}

abbrev trail : ℕ → Bytes → List Bytes
trail sep s = if is_empty s || last_is sep s then [] ∷ [] else []

find-none_last : (sep : ℕ) (s : Bytes) → find sep s ≡ none → last_is sep s ≡ false
unfolding find last_is
find-none_last sep [] h = refl
find-none_last sep (c ∷ []) h = ground arith
find-none_last sep (c ∷ d ∷ s) h = ground (arith, find-none_last sep (d ∷ s))

find-some-trail : (sep : ℕ) (s p r : Bytes) → find sep s ≡ some (p, r) → trail sep s ≡ trail sep r
unfolding find last_is
find-some-trail sep [] p r h = cc
find-some-trail sep (c ∷ []) p r h = ground arith
find-some-trail sep (c ∷ d ∷ s) p r h = elim (Bool-cases (c == sep)) [
  | inl e ↦ ground arith
  | inr e ↦ elim (Option-cases (find sep (d ∷ s))) [
    | inl e2 ↦ ground arith
    | inr (q, e2) ↦ ground (arith, find-some-trail sep (d ∷ s) q.0 q.1)
  ]
]

split_loop_found :
    (fuel sep c : ℕ) (s p r : Bytes)
    → find sep (c ∷ s) ≡ some (p, r)
    → split_loop (suc fuel) sep (c ∷ s) ≡ p ∷ split_loop fuel sep r
unfolding split_loop
split_loop_found fuel sep c s p r e = rw (e, split_loop)

split_loop-fields :
    (fuel sep : ℕ) (s : Bytes)
    → length s ≤ fuel
    → split_loop fuel sep s ++ trail sep s ≡ fields s sep
split_loop-fields zero sep [] h = unfold split_loop fields in refl
split_loop-fields zero sep (c ∷ s) h = absurd (omega arith)
split_loop-fields (suc fuel) sep [] h = unfold split_loop fields in refl
split_loop-fields (suc fuel) sep (c ∷ s) h = elim (Option-cases (find sep (c ∷ s))) [
  | inl e ↦
      rw (find-none sep (c ∷ s) e, find-none_last sep (c ∷ s) e)
        (unfold split_loop in rw (e, split_loop))
  | inr (q, e) ↦
      let (parts, shorter) = find-some sep (c ∷ s) q.0 q.1 e in
      let rest = split_loop-fields fuel sep q.1 (omega arith) in
      rw (parts, find-some-trail sep (c ∷ s) q.0 q.1 e)
        (rw (split_loop_found fuel sep c s q.0 q.1 e) (ap (λ r. q.0 ∷ r) rest))
]

-- `split` cuts its text at every separator, an empty last field included.
pub split-fields : (s : Bytes) (sep : ℕ) → split s sep ≡ fields s sep
unfolding split
split-fields s sep = split_loop-fields (length s) sep s (omega arith)

abbrev pub Lacks : ℕ → Bytes → Type 0
Lacks sep = All (λ c. c ≢ sep)

unfoldable pub lacks : ℕ → Bytes → Bool
lacks sep [] = true
lacks sep (c ∷ s) = not (c == sep) && lacks sep s

pub lacks_sound : (sep : ℕ) (s : Bytes) → lacks sep s ≡ true → Lacks sep s
unfolding lacks
lacks_sound sep [] e = tt
lacks_sound sep (c ∷ s) e = ((λ h. ground arith), lacks_sound sep s (ground arith))

-- The fields with a separator between each two.
unfoldable pub join : List Bytes → ℕ → Bytes
join [] sep = []
join (p ∷ []) sep = p
join (p ∷ q ∷ ps) sep = p ++ sep ∷ join (q ∷ ps) sep

fields-cons : (s : Bytes) (sep : ℕ) → (p : Bytes) × (ps : List Bytes) × (fields s sep ≡ p ∷ ps)
unfolding fields
fields-cons [] sep = ([], [], refl)
fields-cons (c ∷ s) sep =
    let (p, ps, e) = fields-cons s sep in
    elim (Bool-cases (c == sep)) [
      | inl h ↦ ([], fields s sep, ground arith)
      | inr h ↦ (c ∷ p, ps, ground arith)
    ]

join-cons :
    (p : Bytes) (ps : List Bytes) (sep : ℕ) → ps ≢ [] → join (p ∷ ps) sep ≡ p ++ sep ∷ join ps sep
unfolding join
join-cons p [] sep h = absurd (h refl)
join-cons p (q ∷ ps) sep h = refl

join-onto_first :
    (c : ℕ) (p : Bytes) (ps : List Bytes) (sep : ℕ)
    → join ((c ∷ p) ∷ ps) sep ≡ c ∷ join (p ∷ ps) sep
unfolding join
join-onto_first c p [] sep = refl
join-onto_first c p (q ∷ ps) sep = refl

fields_sep :
    (c : ℕ) (s : Bytes) (sep : ℕ) → (c == sep) ≡ true → fields (c ∷ s) sep ≡ [] ∷ fields s sep
unfolding fields
fields_sep c s sep h = rw (h, fields)

fields_other :
    (c : ℕ) (s : Bytes) (sep : ℕ)
    → (c == sep) ≡ false
    → fields (c ∷ s) sep ≡ onto_first c (fields s sep)
unfolding fields
fields_other c s sep h = rw (h, fields)

join-fields : (s : Bytes) (sep : ℕ) → join (fields s sep) sep ≡ s
join-fields [] sep = unfold join fields in refl
join-fields (c ∷ s) sep =
    let (p, ps, e) = fields-cons s sep in
    let rest : join (p ∷ ps) sep ≡ s = subst (λ q. join q sep ≡ s) e (join-fields s sep) in
    elim (Bool-cases (c == sep)) [
      | inl h ↦ rw (fields_sep c s sep h, e, join-cons [] (p ∷ ps) sep (λ n. cc)) (ground arith)
      | inr h ↦ rw (fields_other c s sep h, e, join-onto_first) (ap (λ r. c ∷ r) rest)
    ]

fields-Lacks : (s : Bytes) (sep : ℕ) → All (Lacks sep) (fields s sep)
fields-Lacks [] sep = unfold fields in (tt, tt)
fields-Lacks (c ∷ s) sep =
    let (p, ps, e) = fields-cons s sep in
    let rest : All (Lacks sep) (p ∷ ps) = subst (All (Lacks sep)) e (fields-Lacks s sep) in
    elim (Bool-cases (c == sep)) [
      | inl h ↦ rw (fields_sep c s sep h) (tt, fields-Lacks s sep)
      | inr h ↦ rw (fields_other c s sep h, e) ((ground arith, rest.0), rest.1)
    ]

fields-append :
    (p : Bytes) (r : Bytes) (sep : ℕ) → Lacks sep p → fields (p ++ sep ∷ r) sep ≡ p ∷ fields r sep
unfolding fields
fields-append [] r sep h = ground arith
fields-append (c ∷ p) r sep h = ground (arith, fields-append p r sep)

pub fields_one : (p : Bytes) (sep : ℕ) → Lacks sep p → fields p sep ≡ p ∷ []
unfolding fields
fields_one [] sep h = refl
fields_one (c ∷ p) sep h = ground (arith, fields_one p sep)

fields-join :
    (ps : List Bytes) (sep : ℕ) → ps ≢ [] → All (Lacks sep) ps → fields (join ps sep) sep ≡ ps
unfolding join
fields-join [] sep h k = absurd (h refl)
fields-join (p ∷ []) sep h k = fields_one p sep k.0
fields-join (p ∷ q ∷ ps) sep h k =
    rw (fields-append p _ sep k.0) (ap (λ r. p ∷ r) (fields-join (q ∷ ps) sep (λ e. cc) k.1))

-- `split s sep` is the only nonempty list of fields free of the separator that joins to `s`.
pub split-eq_iff :
    (s : Bytes) (sep : ℕ) (ps : List Bytes)
    → (split s sep ≡ ps) ↔ ((ps ≢ []) × All (Lacks sep) ps × (join ps sep ≡ s))
split-eq_iff s sep ps = rw (split-fields s sep) (there, back)
  where
    there : fields s sep ≡ ps → (ps ≢ []) × All (Lacks sep) ps × (join ps sep ≡ s)
    there e =
        let (p, r, c) = fields-cons s sep in
        (λ n. cc, subst (All (Lacks sep)) e (fields-Lacks s sep), rw (← e) (join-fields s sep))

    back : (ps ≢ []) × All (Lacks sep) ps × (join ps sep ≡ s) → fields s sep ≡ ps
    back (n, l, e) = rw (← e) (fields-join ps sep n l)
