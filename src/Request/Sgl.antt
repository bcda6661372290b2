-- ===== src/Request/Sgl.antt =====
-- `sgl_find_offset` of libqdma/qdma_descq.c: where in a scatter-gather list a byte offset lies.
use native.Mathlib.Decide.{dec_lt}
use qdmav.Prelude.{
  zero, drop, ℕ, suc, ◌+◌, ◌-◌, ◌^◌, ◌≤◌, ◌<◌, ◌≡◌, ◌↔◌, refl, List, [], ◌∷◌, Option, none, some,
  inl, inr, Bool-cases, arith, add32, ltb, ◌==◌, if◌then◌else◌, take, length,
}
use qdmav.Request.{SwSg}

-- The loop from entry `i` on, with `len` bytes before it. The result is the index, which is also
-- the position that `sg_p` points at, and `*sg_offset`.
unfoldable pub find_offset_from : List SwSg → ℕ → ℕ → ℕ → Option (ℕ × ℕ)
find_offset_from [] offset i len = none
find_offset_from (sg ∷ sgl) offset i len =
    let len' = add32 len sg.len in
    let rest = find_offset_from sgl offset (i + 1) len' in
    if len' == offset
    then some (i + 1, 0)
    else (if ltb offset len' then some (i, len' - offset) else rest)

unfoldable pub sgl_find_offset : List SwSg → ℕ → Option (ℕ × ℕ)
sgl_find_offset sgl offset = find_offset_from sgl offset 0 0

-- The bytes of a list.
abbrev pub total : List SwSg → ℕ
total [] = 0
total (sg ∷ sgl) = sg.len + total sgl

-- What the result `(j, left)` of a search for `offset` says of a list whose first entry has the
-- index `i` and `len` bytes before it: entry `j` begins at or before `offset`; `left` is 0 exactly
-- where it begins there, and is else what the entry still holds from `offset` on.
pub record Found (sgl : List SwSg) (offset i len j left : ℕ) : Type 0 where
  pub after : i ≤ j
  pub within : j - i ≤ length sgl
  pub begins : len + total (take (j - i) sgl) ≤ offset
  pub at_start : left ≡ 0 → len + total (take (j - i) sgl) ≡ offset
  pub past : 0 < left → len + total (take (j - i) sgl) < offset
  pub inside : 0 < left → len + total (take (suc (j - i)) sgl) ≡ offset + left

Found-cons :
    (sg : SwSg) (sgl : List SwSg) (offset i len : ℕ) {j left : ℕ}
    → Found sgl offset (i + 1) (len + sg.len) j left
    → Found (sg ∷ sgl) offset i len j left
Found-cons sg sgl offset i len {j} {left} f =
    let e : j - i ≡ suc (j - (i + 1)) = omega (arith, f.after) in
    record {
      after = omega (arith, f.after);
      within = rw e (omega (arith, f.within));
      begins = rw e (omega (arith, f.begins));
      at_start = rw e (λ z. omega (arith, f.at_start z));
      past = rw e (λ z. omega (arith, f.past z));
      inside = rw e (λ z. omega (arith, f.inside z));
    }

Found-next :
    (sg : SwSg) (sgl : List SwSg) (offset i len : ℕ) {j left : ℕ}
    → j ≡ i + 1
    → left ≡ 0
    → len + sg.len ≡ offset
    → Found (sg ∷ sgl) offset i len j left
Found-next sg sgl offset i len {j} {left} ej el h =
    let e : j - i ≡ suc 0 = omega arith in
    record {
      after = omega arith;
      within = rw e (omega arith);
      begins = rw e (omega arith);
      at_start = rw e (λ z. omega arith);
      past = rw e (λ z. absurd (omega arith));
      inside = rw e (λ z. absurd (omega arith));
    }

Found-here :
    (sg : SwSg) (sgl : List SwSg) (offset i len : ℕ) {j left : ℕ}
    → j ≡ i
    → left ≡ len + sg.len - offset
    → len < offset
    → offset < len + sg.len
    → Found (sg ∷ sgl) offset i len j left
Found-here sg sgl offset i len {j} {left} ej el hl h =
    let e : j - i ≡ 0 = omega arith in
    record {
      after = omega arith;
      within = rw e (omega arith);
      begins = rw e (omega arith);
      at_start = rw e (λ z. absurd (omega arith));
      past = rw e (λ z. omega arith);
      inside = rw e (λ z. omega arith);
    }

find_offset_from-Found :
    (sgl : List SwSg) (offset i len : ℕ) {j left : ℕ}
    → len + total sgl < 2 ^ 32
    → len < offset
    → find_offset_from sgl offset i len ≡ some (j, left)
    → Found sgl offset i len j left
unfolding find_offset_from
find_offset_from-Found [] offset i len hb hl e = cc
find_offset_from-Found (sg ∷ sgl) offset i len {j} {left} hb hl e =
    elim (Bool-cases (add32 len sg.len == offset)) [
      | inl at ↦ Found-next sg sgl offset i len (ground arith) (ground arith) (ground arith)
      | inr ne ↦ elim (Bool-cases (ltb offset (add32 len sg.len))) [
        | inl over ↦ Found-here sg sgl offset i len (ground arith) (ground arith) hl (ground arith)
        | inr under ↦ Found-cons sg sgl offset i len (
            find_offset_from-Found sgl offset (i + 1) (len + sg.len) (omega arith) (ground arith)
              (ground arith))
      ]
    ]

-- The search for an offset above 0 in a list of fewer than 2^32 bytes finds the entry in which the
-- offset lies, and what that entry holds from there on.
pub sgl_find_offset-Found :
    (sgl : List SwSg) (offset : ℕ) {j left : ℕ}
    → total sgl < 2 ^ 32
    → 0 < offset
    → sgl_find_offset sgl offset ≡ some (j, left)
    → Found sgl offset 0 0 j left
unfolding sgl_find_offset
sgl_find_offset-Found sgl offset hb h e = find_offset_from-Found sgl offset 0 0 (omega arith) h e

find_offset_from-none :
    (sgl : List SwSg) (offset i len : ℕ)
    → len + total sgl < 2 ^ 32
    → len < offset
    → (find_offset_from sgl offset i len ≡ none) ↔ (len + total sgl < offset)
unfolding find_offset_from
find_offset_from-none [] offset i len hb hl = (λ _. omega arith, λ _. refl)
find_offset_from-none (sg ∷ sgl) offset i len hb hl = elim (dec_lt (len + sg.len) offset) [
  | yes p ↦ ground (arith, find_offset_from-none sgl offset (i + 1) (len + sg.len))
  | no p ↦ ground arith
]

-- The search fails (-EINVAL) exactly for an offset beyond the end of the list.
pub sgl_find_offset-none :
    (sgl : List SwSg) (offset : ℕ)
    → total sgl < 2 ^ 32
    → 0 < offset
    → (sgl_find_offset sgl offset ≡ none) ↔ (total sgl < offset)
unfolding sgl_find_offset
sgl_find_offset-none sgl offset hb h =
    let (f, g) = find_offset_from-none sgl offset 0 0 (omega arith) h in
    (λ e. omega (arith, f e), λ p. g (omega arith))

pub total-take-drop :
    (i : ℕ) (sgl : List SwSg) → total (take i sgl) + total (drop i sgl) ≡ total sgl
total-take-drop zero sgl = omega arith
total-take-drop (suc i) [] = omega arith
total-take-drop (suc i) (sg ∷ sgl) = omega (arith, total-take-drop i sgl)

pub take-suc_end :
    (i : ℕ) (sgl : List SwSg) → length sgl ≤ i → total (take (suc i) sgl) ≡ total (take i sgl)
take-suc_end zero [] h = refl
take-suc_end zero (sg ∷ sgl) h = absurd (omega arith)
take-suc_end (suc i) [] h = refl
take-suc_end (suc i) (sg ∷ sgl) h = omega (arith, take-suc_end i sgl)
