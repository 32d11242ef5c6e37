-- ===== src/Sha1/Digest.antt =====
-- src/sha1.cpp: what a caller of `update`, `digest` and `final` sees.
use mathlib.Core.List.{flatten, flat_map}
use beauty_cl.Prelude.{ℕ, ◌+◌, ◌≡◌, refl, sym, ap, ◌∙◌, List, [], ◌∷◌, arith, Bytes, length}
use beauty_cl.Sha1.{Sha1, reset, update, digest, final, word_bytes, hex_word, words, compute_digest}
use beauty_cl.Sha1.Spec.{absorb, sha1}
use beauty_cl.Sha1.Stream.{absorb-append, update-absorb}
use beauty_cl.Sha1.Padding.{Counts, absorb-Counts, compute_digest-sha1}

-- `update` for each piece of a message.
unfoldable pub update_all : Sha1 → List Bytes → Sha1
update_all h [] = h
update_all h (s ∷ pieces) = update_all (update s h) pieces

update_all-absorb :
    (pieces : List Bytes) (h : Sha1) (n : ℕ)
    → Counts h n
    → update_all h pieces ≡ absorb h (flatten pieces)
unfolding update_all flatten
update_all-absorb [] h n c = unfold absorb in refl
update_all-absorb (s ∷ pieces) h n c =
    ap (λ g. update_all g pieces) (update-absorb s h c.1)
    ∙ update_all-absorb pieces (absorb h s) (n + length s) (absorb-Counts h s n c)
    ∙ sym (absorb-append h s (flatten pieces))

reset-Counts : Counts reset 0
unfolding reset
reset-Counts = (refl, omega arith)

update_all-sha1 :
    (pieces : List Bytes)
    → (compute_digest (update_all reset pieces)).digest ≡ sha1 (flatten pieces)
update_all-sha1 pieces =
    ap (λ h. (compute_digest h).digest) (update_all-absorb pieces reset 0 reset-Counts)
    ∙ compute_digest-sha1 (flatten pieces)

-- However a message is cut into pieces for `update`, `digest` gives the bytes of its SHA-1 digest,
-- and leaves the object as new.
pub digest-sha1 :
    (pieces : List Bytes)
    → digest (update_all reset pieces)
      ≡ (flat_map word_bytes (words (sha1 (flatten pieces))), reset)
unfolding digest
digest-sha1 pieces = ap (λ v. (flat_map word_bytes (words v), reset)) (update_all-sha1 pieces)

-- However a message is cut into pieces for `update`, `final` gives its SHA-1 digest, eight
-- hexadecimal digits for each word, and leaves the object as new.
pub final-sha1 :
    (pieces : List Bytes)
    → final (update_all reset pieces)
      ≡ (flat_map (hex_word 8) (words (sha1 (flatten pieces))), reset)
unfolding final
final-sha1 pieces = ap (λ v. (flat_map (hex_word 8) (words v), reset)) (update_all-sha1 pieces)
